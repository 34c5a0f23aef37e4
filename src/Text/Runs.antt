-- ===== src/Text/Runs.antt =====
-- Concrete runs, and the theorems at concrete inputs.
use wmbm_16brandnew.Prelude.{◌≡◌, refl, [], ◌∷◌, codes}
use wmbm_16brandnew.Text.{eat_whitespace, trim_right, trim_whitespace, split_loop, split_string}

trim_whitespace_run : trim_whitespace (codes "  a b ") ≡ codes "a b"
unfolding trim_whitespace trim_right eat_whitespace
trim_whitespace_run = refl

-- Empty parts are left out.
split_string_run : split_string (codes "  key=1  b=2") b' ' ≡ codes "key=1" ∷ codes "b=2" ∷ []
unfolding split_string split_loop
split_string_run = refl
