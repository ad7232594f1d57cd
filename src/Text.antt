-- ===== src/Text.antt =====
-- Python's string operations that the services use: decimal numbers, `rstrip("/")`, `s[:n]`, `split`, `replace`.
use Prim.Native.Nat.{◌/◌, ◌%◌}
use Prim.Native.Char.{Char, code}
use Prim.Native.String.{String, ◌++◌ as ◌<>◌}
use k8s_alert_manager.Prelude.{
  ℕ, zero, suc, ◌≡◌, refl, Bool, true, false, ◌&&◌, List, [], ◌∷◌, ltb, ◌==◌, if◌then◌else◌,
}

digits : List String
digits = "0" ∷ "1" ∷ "2" ∷ "3" ∷ "4" ∷ "5" ∷ "6" ∷ "7" ∷ "8" ∷ "9" ∷ []

digit_at : ℕ → List String → String
digit_at n [] = ""
digit_at zero (d ∷ ds) = d
digit_at (suc n) (d ∷ ds) = digit_at n ds

-- The last digit first; a number has fewer digits than the fuel that `str` gives.
str_from : ℕ → ℕ → String
unfolding digits digit_at
str_from zero n = ""
str_from (suc fuel) n =
    let front = str_from fuel (n / 10) in
    if ltb n 10 then digit_at n digits else front <> digit_at (n % 10) digits

unfoldable pub str : ℕ → String
unfolding str_from
str n = str_from (suc n) n

is_empty_text : String → Bool
is_empty_text String.[] = true
is_empty_text (String.◌∷◌ c s) = false

unfoldable pub rstrip_slash : String → String
unfolding is_empty_text
rstrip_slash String.[] = String.[]
rstrip_slash (String.◌∷◌ c s) =
    let rest = rstrip_slash s in
    if code c == b'/' && is_empty_text rest then String.[] else String.◌∷◌ c rest

-- s[:n], by characters
unfoldable pub take_text : ℕ → String → String
take_text zero s = String.[]
take_text (suc n) String.[] = String.[]
take_text (suc n) (String.◌∷◌ c s) = String.◌∷◌ c (take_text n s)

str_examples : (str 0 ≡ "0") × (str 1205 ≡ "1205")
unfolding str
str_examples = (refl, refl)

rstrip_slash_example : rstrip_slash "http://g/a//" ≡ "http://g/a"
unfolding rstrip_slash
rstrip_slash_example = refl

take_text_example : take_text 3 "abcdef" ≡ "abc"
unfolding take_text
take_text_example = refl

-- len(s), in characters
unfoldable pub text_length : String → ℕ
text_length String.[] = 0
text_length (String.◌∷◌ c s) = suc (text_length s)

prepend : Char → List String → List String
prepend c [] = String.◌∷◌ c String.[] ∷ []
prepend c (w ∷ ws) = String.◌∷◌ c w ∷ ws

-- s.split(","), by the separator's code
unfoldable pub split_at : ℕ → String → List String
unfolding prepend
split_at separator String.[] = "" ∷ []
split_at separator (String.◌∷◌ c s) =
    let rest = split_at separator s in if code c == separator then "" ∷ rest else prepend c rest

-- s.replace(old, new), for an old text of one character, given by its code
unfoldable pub replace_char : ℕ → String → String → String
replace_char old new String.[] = String.[]
replace_char old new (String.◌∷◌ c s) =
    let rest = replace_char old new s in if code c == old then new <> rest else String.◌∷◌ c rest

split_at_example : split_at b',' "a,,b" ≡ "a" ∷ "" ∷ "b" ∷ []
unfolding split_at prepend
split_at_example = refl
