-- ===== src/Codec.antt =====
-- A concrete text format for records, with which the examples fill the parameter `Json`: numbers
-- stand for themselves, texts and lists begin with their length.
use shmark.Base.{
  ℕ, zero, suc, Text, ◌≡◌, refl, subst, Option, none, some, Bool, true, false, List, [], ◌∷◌, ◌++◌,
  length,
}
use mathlib.Core.List.{append_assoc, append-nil}
use mathlib.Core.Option.{some-injective}
use shmark.Json.{Json}

pub record Codec (A : Type 0) : Type 0 where
  pub put : A → Text
  pub get : Text → Option (A × Text)
  pub get-put : (a : A) (rest : Text) → get (put a ++ rest) ≡ some (a, rest)

abbrev then_get :
    {A B : Type 0} → Option (A × Text) → (A → Text → Option (B × Text)) → Option (B × Text)
then_get none f = none
then_get (some (a, t)) f = f a t

abbrev get_number : Text → Option (ℕ × Text)
get_number [] = none
get_number (n ∷ t) = some (n, t)

abbrev pub number : Codec ℕ
number = record { put = λ n. n ∷ []; get = get_number; get-put = λ n rest. refl }

abbrev put_bool : Bool → Text
put_bool true = 1 ∷ []
put_bool false = 0 ∷ []

abbrev get_bool : Text → Option (Bool × Text)
get_bool [] = none
get_bool (zero ∷ t) = some (false, t)
get_bool (suc n ∷ t) = some (true, t)

pub get_bool-put_bool : (b : Bool) (rest : Text) → get_bool (put_bool b ++ rest) ≡ some (b, rest)
get_bool-put_bool true rest = refl
get_bool-put_bool false rest = refl

abbrev pub bool : Codec Bool
bool = record { put = put_bool; get = get_bool; get-put = get_bool-put_bool }

module _ {A B : Type 0} (c : Codec A) where
  abbrev get_pair : Codec B → Text → Option ((A × B) × Text)
  get_pair d t = then_get (c.get t) (λ a t'. then_get (d.get t') (λ b t''. some ((a, b), t'')))

  pub get_pair-put :
      (d : Codec B) (a : A) (b : B) (rest : Text)
      → get_pair d ((c.put a ++ d.put b) ++ rest) ≡ some ((a, b), rest)
  get_pair-put d a b rest = rw (append_assoc, c.get-put a (d.put b ++ rest), d.get-put b rest)

  abbrev pub pair : Codec B → Codec (A × B)
  pair d = record {
    put = λ p. c.put p.0 ++ d.put p.1;
    get = get_pair d;
    get-put = λ p rest. get_pair-put d p.0 p.1 rest;
  }

  abbrev get_mapped : (A → B) → Text → Option (B × Text)
  get_mapped f t = then_get (c.get t) (λ a t'. some (f a, t'))

  pub get_mapped-put :
      (f : A → B) (g : B → A) (back : (b : B) → f (g b) ≡ b) (b : B) (rest : Text)
      → get_mapped f (c.put (g b) ++ rest) ≡ some (b, rest)
  get_mapped-put f g back b rest = rw (c.get-put (g b) rest, back b)

  abbrev pub mapped : (f : A → B) (g : B → A) → ((b : B) → f (g b) ≡ b) → Codec B
  mapped f g back = record {
    put = λ b. c.put (g b);
    get = get_mapped f;
    get-put = get_mapped-put f g back;
  }

module _ {A : Type 0} (c : Codec A) where
  abbrev put_items : List A → Text
  put_items [] = []
  put_items (x ∷ xs) = c.put x ++ put_items xs

  abbrev get_items : ℕ → Text → Option (List A × Text)
  get_items zero t = some ([], t)
  get_items (suc n) t =
      then_get (c.get t) (λ x t'. then_get (get_items n t') (λ xs t''. some (x ∷ xs, t'')))

  pub get_items-put :
      (xs : List A) (rest : Text) → get_items (length xs) (put_items xs ++ rest) ≡ some (xs, rest)
  get_items-put [] rest = refl
  get_items-put (x ∷ xs) rest =
      rw (append_assoc, c.get-put x (put_items xs ++ rest), get_items-put xs rest)

  abbrev get_list : Text → Option (List A × Text)
  get_list [] = none
  get_list (n ∷ t) = get_items n t

  abbrev pub list : Codec (List A)
  list = record { put = λ xs. length xs ∷ put_items xs; get = get_list; get-put = get_items-put }

  abbrev put_option : Option A → Text
  put_option none = 0 ∷ []
  put_option (some a) = 1 ∷ c.put a

  abbrev get_option : Text → Option (Option A × Text)
  get_option [] = none
  get_option (zero ∷ t) = some (none, t)
  get_option (suc n ∷ t) = then_get (c.get t) (λ a t'. some (some a, t'))

  pub get_option-put :
      (o : Option A) (rest : Text) → get_option (put_option o ++ rest) ≡ some (o, rest)
  get_option-put none rest = refl
  get_option-put (some a) rest = rw (c.get-put a rest)

  abbrev pub option : Codec (Option A)
  option = record { put = put_option; get = get_option; get-put = get_option-put }

  abbrev decode : Text → Option A
  decode t = elim (c.get t) [ none ↦ none | some (a, rest) ↦ some a ]

  pub decode-put : (a : A) (t : Text) → some (c.put a) ≡ some t → decode t ≡ some a
  decode-put a t h =
      let got : c.get (c.put a) ≡ some (a, []) =
        subst (λ u. c.get u ≡ some (a, [])) (append-nil (c.put a)) (c.get-put a []) in
      subst (λ u. decode u ≡ some a) (some-injective _ _ h) (rw (got, decode))

  abbrev pub json : Json A
  json = record {
    to_string = λ a. some (c.put a);
    from_str = decode;
    from_str-to_string = decode-put;
  }

abbrev pub text : Codec Text
text = list number
