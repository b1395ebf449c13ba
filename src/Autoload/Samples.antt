-- ===== src/Autoload/Samples.antt =====
-- The scanner of internal/autoload/phpscan.go on concrete files.
use gomposer.Prelude.{List, inl, inr, [], ◌∷◌, ◌≡◌, ◌≢◌, refl}
use gomposer.Prelude.Bytes.{codes}
use gomposer.Autoload.Tokens.{failed, done, out_of_fuel, is_ws, is_ident_start, is_ident_cont}
use gomposer.Autoload.Scan.{scan_classes, keyword}
use gomposer.Autoload.Progress.{scan_classes-ends}
use gomposer.Autoload.Declarations.{file_text, scan_classes-file_text}
use gomposer.Autoload.Items.{Item}
use gomposer.Autoload.Pieces.{word, mark, quotation, declared, anonymous}

scan_classes-ends_example : scan_classes (codes "<?php class A { /* ") ≢ failed out_of_fuel
scan_classes-ends_example = scan_classes-ends (codes "<?php class A { /* ")

-- final class Kernel { const A = 'class B' ; } interface Http { } new class { }
abbrev items : List Item
items =
    (word (codes "final"), codes " ")
    ∷ (declared (codes "class") (codes "Kernel"), codes " ")
    ∷ (mark b'{', codes " ")
    ∷ (word (codes "const"), codes " ")
    ∷ (word (codes "A"), codes " ")
    ∷ (mark b'=', codes " ")
    ∷ (quotation 39 (codes "class B"), codes " ")
    ∷ (mark b';', codes " ")
    ∷ (mark b'}', codes " ")
    ∷ (declared (codes "interface") (codes "Http"), codes " ")
    ∷ (mark b'{', codes " ")
    ∷ (mark b'}', codes " ")
    ∷ (anonymous, codes " ")
    ∷ (mark b'{', codes " ")
    ∷ (mark b'}', codes " ")
    ∷ []

scan_classes-file_text_example :
    scan_classes (file_text (codes "App") (codes "Core" ∷ []) items)
    ≡ done (codes "App\\Core\\Kernel" ∷ codes "App\\Core\\Http" ∷ [])
unfolding is_ident_start is_ident_cont is_ws keyword
scan_classes-file_text_example =
    scan_classes-file_text (codes "App") (codes "Core" ∷ []) items (refl, refl) ((refl, refl), tt)
      (
        (((refl, refl), inr refl), (refl, refl)),
        (
          (((refl, refl), refl, (refl, refl)), (refl, refl)),
          (
            (refl, (refl, refl)),
            (
              (((refl, refl), inl refl), (refl, refl)),
              (
                (((refl, refl), inl refl), (refl, refl)),
                (
                  (refl, (refl, refl)),
                  (
                    ((refl, refl), (refl, refl)),
                    (
                      (refl, (refl, refl)),
                      (
                        (refl, (refl, refl)),
                        (
                          (((refl, refl), refl, (refl, refl)), (refl, refl)),
                          (
                            (refl, (refl, refl)),
                            (
                              (refl, (refl, refl)),
                              (
                                (tt, (refl, refl)),
                                ((refl, (refl, refl)), ((refl, (refl, refl)), tt)),
                              ),
                            ),
                          ),
                        ),
                      ),
                    ),
                  ),
                ),
              ),
            ),
          ),
        ),
      )
