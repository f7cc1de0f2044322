-- ===== src/Startup/Layers/Precedence.antt =====
-- Which layer a setting comes from.
use elan.Common.{
  ◌≡◌, refl, sym, ap, ◌∙◌, [], ◌∷◌, List, false, Option, none, some, Text, codes, Result, ok,
  >>=-eq-ok, text_eq, if◌then◌else◌, inl, inr, All, text_eq_iff, arith, subst, Bool-cases,
}
use elan.Startup.Layers.{Setting, ConfigApi, set_defaults, with_file, layered, required, optional}

-- `Option::or`
abbrev pub or : {A : Type 0} → Option A → Option A → Option A
or none o = o
or (some a) o = some a

-- What is relied on of the crate: a default gives a value to a key that has none, each source that
-- is added goes before what was there, and a configuration that is built has what its builder has.
pub record IsLayered {B : Type 0} (api : ConfigApi B) : Type 0 where
  pub at : B → Text → Option Setting
  pub file : Text → Text → Option Setting
  pub env : Text → Text → Option Setting
  pub at-builder : (k : Text) → at api.builder k ≡ none
  pub at-set_default :
      (k j : Text) (v : Setting) (b b' : B)
      → at b k ≡ none
      → api.set_default k v b ≡ ok b'
      → at b' j ≡ (if text_eq k j then some v else at b j)
  pub at-add_file : (path k : Text) (b : B) → at (api.add_file path b) k ≡ or (file path k) (at b k)
  pub at-add_environment :
      (prefix k : Text) (b : B)
      → at (api.add_environment prefix (codes "__") b) k ≡ or (env prefix k) (at b k)
  pub build_at :
      (b : B) (settings : Text → Option Setting) (k : Text)
      → api.build b ≡ ok settings
      → settings k ≡ at b k

-- The default of a key.
abbrev pub default_of : Text → List (Text × Setting) → Option Setting
default_of k [] = none
default_of k ((j, v) ∷ rest) = if text_eq j k then some v else default_of k rest

-- No key has two defaults.
abbrev AreFresh : List (Text × Setting) → Type 0
AreFresh [] = Unit
AreFresh ((k, v) ∷ rest) = (default_of k rest ≡ none) × AreFresh rest

module _ {B : Type 0} (api : ConfigApi B) (law : IsLayered api) where
  abbrev pub from_file : Option Text → Text → Option Setting
  from_file none k = none
  from_file (some path) k = law.file path k

  -- The environment goes before the file, and the file before the defaults.
  abbrev pub effective : List (Text × Setting) → Text → Option Text → Text → Option Setting
  effective defaults prefix path k =
      or (law.env prefix k) (or (from_file path k) (default_of k defaults))

  fresh_after :
      (j : Text) (v : Setting) (b b' : B) (rest : List (Text × Setting))
      → law.at b j ≡ none
      → api.set_default j v b ≡ ok b'
      → default_of j rest ≡ none
      → All (λ e. law.at b e.0 ≡ none) rest
      → All (λ e. law.at b' e.0 ≡ none) rest
  fresh_after j v b b' [] free e other h = tt
  fresh_after j v b b' ((k, w) ∷ rest) free e other (h, hs) = elim (Bool-cases (text_eq k j)) [
    | inl same ↦
        let never : ◌≡◌ {A = Option Setting} (some w) none = rw (same, default_of) at other in cc
    | inr differ ↦
        let apart : text_eq j k ≡ false = ground (arith, text_eq_iff j k, text_eq_iff k j) in
        (
          law.at-set_default j k v b b' free e ∙ rw apart h,
          fresh_after j v b b' rest free e (rw (differ, default_of) at other) hs,
        )
  ]

  set_defaults_at :
      (defaults : List (Text × Setting)) (b b' : B) (k : Text)
      → AreFresh defaults
      → All (λ e. law.at b e.0 ≡ none) defaults
      → set_defaults api defaults b ≡ ok b'
      → law.at b' k ≡ or (default_of k defaults) (law.at b k)
  unfolding set_defaults
  set_defaults_at [] b b' k fresh free e = let same : b ≡ b' = cc in ap (λ c. law.at c k) (sym same)
  set_defaults_at ((j, v) ∷ rest) b b' k (lone, fresh) (h, hs) e =
      let (b1, set, e1) = >>=-eq-ok (api.set_default j v b) _ e in
      let later = set_defaults_at rest b1 b' k fresh (fresh_after j v b b1 rest h set lone hs) e1 in
      let now = law.at-set_default j k v b b1 h set in
      elim (Bool-cases (text_eq j k)) [
        | inl same ↦
            let gone : default_of k rest ≡ none =
              subst (λ t. default_of t rest ≡ none) ((text_eq_iff j k).0 same) lone in
            later ∙ rw (gone, now, same) refl
        | inr differ ↦ later ∙ rw (now, differ) refl
      ]

  at_none : (defaults : List (Text × Setting)) → All (λ e. law.at api.builder e.0 ≡ none) defaults
  at_none [] = tt
  at_none ((k, v) ∷ rest) = (law.at-builder k, at_none rest)

  with_file_at :
      (path : Option Text) (b : B) (k : Text)
      → law.at (with_file api path b) k ≡ or (from_file path k) (law.at b k)
  unfolding with_file
  with_file_at none b k = refl
  with_file_at (some path) b k = law.at-add_file path k b

  or_none : (o : Option Setting) → or o none ≡ o
  or_none none = refl
  or_none (some v) = refl

  pub layered_at :
      (defaults : List (Text × Setting)) (prefix : Text) (path : Option Text)
      (settings : Text → Option Setting) (k : Text)
      → AreFresh defaults
      → layered api defaults prefix path ≡ ok settings
      → settings k ≡ effective defaults prefix path k
  unfolding layered
  layered_at defaults prefix path settings k fresh e =
      let (b, set, built) = >>=-eq-ok (set_defaults api defaults api.builder) _ e in
      law.build_at _ settings k built
      ∙ law.at-add_environment prefix k (with_file api path b)
      ∙ ap (or (law.env prefix k)) (
          with_file_at path b k
          ∙ ap (or (from_file path k)) (
              set_defaults_at defaults api.builder b k fresh (at_none defaults) set
              ∙ ap (or (default_of k defaults)) (law.at-builder k)
              ∙ or_none (default_of k defaults)))

  pub required_eq :
      {A : Type 0} (read : Setting → Result Text A) (key : Text) (o : Option Setting) (a : A)
      → required read key o ≡ ok a
      → (v : Setting) × (o ≡ some v) × (read v ≡ ok a)
  unfolding required
  required_eq read key none a e = cc
  required_eq read key (some v) a e = (v, refl, e)

  -- A field of the configuration that is read from a key.
  abbrev pub IsRead : {A : Type 0} → (Setting → Result Text A) → Option Setting → A → Type 0
  IsRead read o a = (v : Setting) × (o ≡ some v) × (read v ≡ ok a)

  -- A key without a setting leaves an optional field out.
  abbrev pub IsReadOption : Option Setting → Option Text → Type 0
  IsReadOption none field = field ≡ none
  IsReadOption (some v) field = (t : Text) × (api.as_text v ≡ ok t) × (field ≡ some t)

  pub optional_eq :
      (o : Option Setting) (field : Option Text)
      → optional api.as_text o ≡ ok field
      → IsReadOption o field
  unfolding optional
  optional_eq none field e = let same : none ≡ field = cc in sym same
  optional_eq (some v) field e =
      let (t, read, e1) = >>=-eq-ok (api.as_text v) _ e in
      let same : some t ≡ field = cc in (t, read, sym same)
