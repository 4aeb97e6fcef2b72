-- ===== src/Auth/Jwt/Readable.antt =====
-- A library that keeps the laws of tokens: the claims written out readably, with the key.
use unitra_service_api.Common.{
  ℕ, zero, suc, ◌+◌, ◌-◌, ◌/◌, ◌≡◌, refl, ap, ◌∙◌, ◌&&◌, Option, none, some, List, [], ◌∷◌, length,
  ◌==◌, if◌then◌else◌, arith,
}
use unitra_service_api.Common.Int.{ℤ, pos, negsuc}
use unitra_service_api.Common.Text.{Text, codes, text_eq, text_eq_refl}
use unitra_service_api.Common.Search.{NoSpace}
use unitra_service_api.Auth.Jwt.{Jwt, Claims, Decoded, judged, is_one_of}

-- A way to write values before a text and to read them back, without a space.
record Codec (A : Type 0) : Type 0 where
  put : A → Text → Text
  get : Text → Option (A × Text)
  get-put : (a : A) (rest : Text) → get (put a rest) ≡ some (a, rest)
  put-NoSpace : (a : A) (rest : Text) → NoSpace rest → NoSpace (put a rest)

abbrev get_number : Text → Option (ℕ × Text)
get_number [] = none
get_number (c ∷ rest) = some (c - 33, rest)

number : Codec ℕ
number = record {
  put = λ n rest. (n + 33) ∷ rest;
  get = get_number;
  get-put = λ n rest. let e : n + 33 - 33 ≡ n = omega arith in rw e refl;
  put-NoSpace = λ n rest h. (omega arith, h);
}

module _ {A B : Type 0} (C : Codec A) (D : Codec B) where
  abbrev attach : A → Option (B × Text) → Option ((A × B) × Text)
  attach a none = none
  attach a (some (b, rest)) = some ((a, b), rest)

  -- the reader of the second component, after the first
  abbrev get_second : Option (A × Text) → Option ((A × B) × Text)
  get_second none = none
  get_second (some (a, rest)) = attach a (D.get rest)

  pair : Codec (A × B)
  pair = record {
    put = λ p rest. C.put p.0 (D.put p.1 rest);
    get = λ t. get_second (C.get t);
    get-put = λ p rest.
        ap get_second (C.get-put p.0 (D.put p.1 rest)) ∙ ap (attach p.0) (D.get-put p.1 rest);
    put-NoSpace = λ p rest h. C.put-NoSpace p.0 _ (D.put-NoSpace p.1 rest h);
  }

module _ {A : Type 0} (C : Codec A) where
  abbrev put_option : Option A → Text → Text
  put_option none rest = 33 ∷ rest
  put_option (some a) rest = 34 ∷ C.put a rest

  abbrev some_read : Option (A × Text) → Option (Option A × Text)
  some_read none = none
  some_read (some (a, rest)) = some (some a, rest)

  abbrev get_option : Text → Option (Option A × Text)
  get_option [] = none
  get_option (c ∷ rest) = if c == 33 then some (none, rest) else some_read (C.get rest)

  get_option-put : (o : Option A) (rest : Text) → get_option (put_option o rest) ≡ some (o, rest)
  get_option-put none rest = refl
  get_option-put (some a) rest = ap some_read (C.get-put a rest)

  put_option-NoSpace : (o : Option A) (rest : Text) → NoSpace rest → NoSpace (put_option o rest)
  put_option-NoSpace none rest h = (omega arith, h)
  put_option-NoSpace (some a) rest h = (omega arith, C.put-NoSpace a rest h)

  option : Codec (Option A)
  option = record {
    put = put_option;
    get = get_option;
    get-put = get_option-put;
    put-NoSpace = put_option-NoSpace;
  }

  abbrev put_each : List A → Text → Text
  put_each [] rest = rest
  put_each (a ∷ as_) rest = C.put a (put_each as_ rest)

  abbrev cons_read : A → Option (List A × Text) → Option (List A × Text)
  cons_read a none = none
  cons_read a (some (l, rest)) = some (a ∷ l, rest)

  -- the reader of what follows an element
  abbrev then_each : (Text → Option (List A × Text)) → Option (A × Text) → Option (List A × Text)
  then_each read none = none
  then_each read (some (a, rest)) = cons_read a (read rest)

  abbrev get_each : ℕ → Text → Option (List A × Text)
  get_each zero t = some ([], t)
  get_each (suc n) t = then_each (get_each n) (C.get t)

  get_each-put : (l : List A) (rest : Text) → get_each (length l) (put_each l rest) ≡ some (l, rest)
  get_each-put [] rest = refl
  get_each-put (a ∷ l) rest =
      ap (then_each (get_each (length l))) (C.get-put a (put_each l rest))
      ∙ ap (cons_read a) (get_each-put l rest)

  put_each-NoSpace : (l : List A) (rest : Text) → NoSpace rest → NoSpace (put_each l rest)
  put_each-NoSpace [] rest h = h
  put_each-NoSpace (a ∷ l) rest h = C.put-NoSpace a _ (put_each-NoSpace l rest h)

  abbrev get_counted : Option (ℕ × Text) → Option (List A × Text)
  get_counted none = none
  get_counted (some (n, rest)) = get_each n rest

  list : Codec (List A)
  list = record {
    put = λ l rest. number.put (length l) (put_each l rest);
    get = λ t. get_counted (number.get t);
    get-put = λ l rest.
        ap get_counted (number.get-put (length l) (put_each l rest)) ∙ get_each-put l rest;
    put-NoSpace = λ l rest h. number.put-NoSpace (length l) _ (put_each-NoSpace l rest h);
  }

module _ {A B : Type 0} (C : Codec A) (there : B → A) (back : A → B)
    (back_there : (b : B) → back (there b) ≡ b) where
  abbrev convert : Option (A × Text) → Option (B × Text)
  convert none = none
  convert (some (a, rest)) = some (back a, rest)

  -- A codec through a type that holds the same.
  through : Codec B
  through = record {
    put = λ b rest. C.put (there b) rest;
    get = λ t. convert (C.get t);
    get-put =
        λ b rest. ap convert (C.get-put (there b) rest) ∙ ap (λ z. some (z, rest)) (back_there b);
    put-NoSpace = λ b rest h. C.put-NoSpace (there b) rest h;
  }

abbrev parts : ℤ → ℕ × ℕ
parts (pos n) = (0, n)
parts (negsuc n) = (1, n)

abbrev of_parts : ℕ × ℕ → ℤ
of_parts (zero, n) = pos n
of_parts (suc _, n) = negsuc n

of_parts-parts : (z : ℤ) → of_parts (parts z) ≡ z
of_parts-parts (pos n) = refl
of_parts-parts (negsuc n) = refl

integer : Codec ℤ
integer = through (pair number number) parts of_parts of_parts-parts

text : Codec Text
text = list number

abbrev Fields : Type 0
Fields =
    (Option Text × Option (List Text))
    × ((Option Text × Option Text) × (Option ℕ × (Option Text × Option ℤ)))

abbrev fields : Claims → Fields
fields c = ((c.sub, c.aud), ((c.jti, c.type), (c.exp, (c.tier, c.minutes_remaining))))

abbrev of_fields : Fields → Claims
of_fields f = record {
  sub = f.0.0;
  aud = f.0.1;
  jti = f.1.0.0;
  type = f.1.0.1;
  exp = f.1.1.0;
  tier = f.1.1.1.0;
  minutes_remaining = f.1.1.1.1;
}

all_claims : Codec Claims
all_claims =
    through
      (pair (pair (option text) (option (list text))) (
        pair (pair (option text) (option text))
          (pair (option number) (pair (option text) (option integer)))))
      fields of_fields (λ c. refl)

-- key, algorithm, claims
token : Codec (Text × (Text × Claims))
token = pair text (pair text all_claims)

abbrev read_token :
    Text → List Text → Option Text → ℕ → Option ((Text × (Text × Claims)) × Text) → Decoded
read_token key algorithms audience now none = Decoded.jwt_error (codes "Not enough segments")
read_token key algorithms audience now (some ((k, (a, c)), rest)) =
    if text_eq k key && is_one_of a algorithms
    then judged audience now c
    else Decoded.jwt_error (codes "Signature verification failed.")

read_token_own :
    (key algorithm : Text) (audience : Option Text) (now : ℕ) (c : Claims)
    → read_token key (algorithm ∷ []) audience now (token.get (token.put (key, (algorithm, c)) []))
      ≡ judged audience now c
read_token_own key algorithm audience now c =
    ap (read_token key (algorithm ∷ []) audience now) (token.get-put (key, (algorithm, c)) [])
    ∙ rw (text_eq_refl key, text_eq_refl algorithm) refl

pub readable : Jwt
readable = record {
  encode = λ key algorithm c. token.put (key, (algorithm, c)) [];
  decode = λ key algorithms audience now t. read_token key algorithms audience now (token.get t);
  generate_jwt = λ c key lifetime algorithm made.
      token.put (key, (algorithm, record c { exp = some (made / 1000000 + lifetime) })) [];
  decode-encode = read_token_own;
  decode-generate_jwt = λ key algorithm audience now made lifetime c h.
      read_token_own key algorithm audience now
        (record c { exp = some (made / 1000000 + lifetime) });
  encode-NoSpace = λ key algorithm c. token.put-NoSpace (key, (algorithm, c)) [] tt;
  generate_jwt-NoSpace = λ key algorithm made lifetime c.
      token.put-NoSpace (key, (algorithm, record c { exp = some (made / 1000000 + lifetime) })) []
        tt;
}
