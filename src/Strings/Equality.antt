-- ===== src/Strings/Equality.antt =====
-- Equality of Go strings.
use gomposer.Prelude.{true, [], ◌∷◌, ◌≡◌, refl, arith, ◌↔◌}
use gomposer.Prelude.Bytes.{Bytes}
use gomposer.Strings.{eq}

eq_sound : (s t : Bytes) → eq s t ≡ true → s ≡ t
unfolding eq
eq_sound [] [] h = refl
eq_sound [] (b ∷ t) h = ground arith
eq_sound (a ∷ s) [] h = ground arith
eq_sound (a ∷ s) (b ∷ t) h = ground (arith, eq_sound s t)

pub eq_refl : (s : Bytes) → eq s s ≡ true
unfolding eq
eq_refl [] = refl
eq_refl (a ∷ s) = ground (arith, eq_refl s)

pub eq_iff : (s t : Bytes) → (eq s t ≡ true) ↔ (s ≡ t)
eq_iff s t = (eq_sound s t, λ e. rw e (eq_refl t))
