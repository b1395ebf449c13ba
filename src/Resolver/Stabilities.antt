-- ===== src/Resolver/Stabilities.antt =====
-- The names of stabilities: Stability.String of internal/constraint/version.go, and parseStabilityName and the
-- floors of internal/resolver/versions.go.
use gomposer.Prelude.{◌⊎◌, inl, inr, Bool-cases, ◌≡◌, refl, true, arith, if◌then◌else◌, ltb}
use gomposer.Prelude.Bytes.{Bytes}
use gomposer.Strings.{eq}
use gomposer.Strings.Equality.{eq_refl}
use gomposer.Constraint.Version.{Stability, dev, alpha, beta, rc, stable, rank, show_stability}
use gomposer.Resolver.Versions.{
  parse_stability_name, VersionLister, allow_stability_at_least, stability_floor,
}

-- Each stability is read back from its name.
pub parse_stability_name-show : (s : Stability) → parse_stability_name (show_stability s) ≡ s
unfolding parse_stability_name show_stability
parse_stability_name-show dev = refl
parse_stability_name-show alpha = refl
parse_stability_name-show beta = refl
parse_stability_name-show rc = refl
parse_stability_name-show stable = refl

-- The lower of two stabilities.
abbrev pub lower : Stability → Stability → Stability
lower s t = if ltb (rank t) (rank s) then t else s

-- AllowStabilityAtLeast lowers the floor of its package to the asked stability, if it is above that, and leaves
-- the floor of every other package.
pub stability_floor-allow :
    (vl : VersionLister) (pkg other : Bytes) (s : Stability)
    → (stability_floor (allow_stability_at_least vl pkg s) pkg ≡ lower (stability_floor vl pkg) s)
      × ((eq pkg other ≡ true)
          ⊎ (stability_floor (allow_stability_at_least vl pkg s) other ≡ stability_floor vl other))
unfolding stability_floor allow_stability_at_least
stability_floor-allow vl pkg other s = (
  ground (arith, eq_refl pkg),
  elim (Bool-cases (eq pkg other)) [ inl e ↦ inl e | inr e ↦ inr (ground arith) ],
)
