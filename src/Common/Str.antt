-- ===== src/Common/Str.antt =====
-- Methods of Python's `str` on texts as lists of code points.
use unitra_service_api.Common.{
  ℕ, zero, suc, ◌+◌, ◌/◌, ◌%◌, ◌<◌, ◌≡◌, Bool, false, ◌||◌, ◌&&◌, [], ◌∷◌, ◌++◌, map, leb, ltb,
  ◌==◌, if◌then◌else◌, All,
}
use unitra_service_api.Common.Int.{ℤ, pos, negsuc}
use unitra_service_api.Common.Text.{Text}

-- The characters that `str.isspace` accepts.
unfoldable pub is_space : ℕ → Bool
is_space c =
    (leb 9 c && leb c 13)
    || (leb 28 c && leb c 32)
    || (c == 133)
    || (c == 160)
    || (c == 5760)
    || (leb 8192 c && leb c 8202)
    || (c == 8232)
    || (c == 8233)
    || (c == 8239)
    || (c == 8287)
    || (c == 12288)

unfoldable pub lstrip : Text → Text
unfolding is_space
lstrip [] = []
lstrip (c ∷ s) = let rest = lstrip s in if is_space c then rest else c ∷ s

-- One character before a text that is stripped on the right.
abbrev rstrip_cons : ℕ → Text → Text
rstrip_cons c [] = if is_space c then [] else c ∷ []
rstrip_cons c (d ∷ s) = c ∷ d ∷ s

unfoldable pub rstrip : Text → Text
unfolding is_space
rstrip [] = []
rstrip (c ∷ s) = rstrip_cons c (rstrip s)

unfoldable pub strip : Text → Text
unfolding lstrip rstrip
strip s = lstrip (rstrip s)

-- `str(n)`; a number has no more digits than itself plus one.
unfoldable pub str_digits : ℕ → ℕ → Text
str_digits zero n = []
str_digits (suc fuel) n =
    let before = str_digits fuel (n / 10) in
    if ltb n 10 then (48 + n) ∷ [] else before ++ ((48 + n % 10) ∷ [])

unfoldable pub str : ℕ → Text
unfolding str_digits
str n = str_digits (suc n) n

-- The small letter of an ASCII capital.
abbrev pub ascii_lower : ℕ → ℕ
ascii_lower c = if leb 65 c && leb c 90 then c + 32 else c

-- `str.lower`, which maps all of Unicode by tables of the Python runtime: of an ASCII text, each
-- letter by itself.
pub record Lowering : Type 0 where
  pub lower : Text → Text
  pub lower-ascii : (s : Text) → All (λ c. c < 128) s → lower s ≡ map ascii_lower s

-- `str` of a signed integer
unfoldable pub str_ℤ : ℤ → Text
unfolding str
str_ℤ (pos n) = str n
str_ℤ (negsuc n) = 45 ∷ str (suc n)

-- `s.split(c)[0]`
unfoldable pub before : ℕ → Text → Text
before c [] = []
before c (d ∷ s) = let rest = before c s in if d == c then [] else d ∷ rest

-- One character before a text whose trailing `c` are gone.
abbrev pub without_last : ℕ → ℕ → Text → Text
without_last c d [] = if d == c then [] else d ∷ []
without_last c d (e ∷ s) = d ∷ e ∷ s

-- `s.rstrip(c)`
unfoldable pub rstrip_char : ℕ → Text → Text
rstrip_char c [] = []
rstrip_char c (d ∷ s) = without_last c d (rstrip_char c s)

-- `s.endswith(c)`
unfoldable pub ends_with : ℕ → Text → Bool
ends_with c [] = false
ends_with c (d ∷ []) = d == c
ends_with c (d ∷ e ∷ s) = ends_with c (e ∷ s)
