-- ===== src/Examples/RedisStub.antt =====
-- A Redis server that is a function from keys to entries, with one sale loaded into it.
use mathlib.Core.Path.{fun_ext}
use sd_flash_sale.Prelude.{
  ℕ, suc, ◌≡◌, refl, ap, ◌∙◌, Bool, true, false, ◌||◌, ◌&&◌, List, [], ◌∷◌, ◌++◌, Option, none,
  some, Text, codes, text_eq, text_eq_refl, contains, count, if◌then◌else◌, ◌==◌, arith, any,
  Bool-cases, inl, inr,
}
use sd_flash_sale.Redis.Server.{
  RedisServer, Scalar, number, other, Entry, absent_entry, string_entry, hash_entry, set_entry,
  can_add, exists_kind, lookup_field, hash, starts_with, is_special,
}

abbrev pub Store : Type 0
Store = Text → Entry

abbrev pub put : Text → Entry → Store → Store
put k e s j = if text_eq k j then e else s j

pub put_self : (k : Text) (e : Entry) (s : Store) → put k e s k ≡ e
put_self k e s = rw (text_eq_refl k) refl

pub put-frame : (k j : Text) (e : Entry) (s : Store) → text_eq k j ≡ false → put k e s j ≡ s j
put-frame k j e s h = rw h refl

abbrev pub or_field : Option Scalar → Option Scalar → Option Scalar
or_field (some v) old = some v
or_field none old = old

abbrev pub merge : List (Text × Scalar) → Entry → Entry
merge fs e = record {
  kind = hash;
  scalar = none;
  field = λ f. or_field (lookup_field f fs) (e.field f);
  member = λ m. false;
}

or_field-none : (v : Option Scalar) → or_field v none ≡ v
or_field-none (some v) = refl
or_field-none none = refl

pub merge-absent : (fs : List (Text × Scalar)) → merge fs absent_entry ≡ hash_entry fs
merge-absent fs =
    ap
      (λ (g : Text → Option Scalar). record {
        kind = hash;
        scalar = none;
        field = g;
        member = λ m. false;
      })
      (fun_ext λ f. or_field-none (lookup_field f fs))

abbrev pub add : Text → List Text → Store → Store
add k [] s = s
add k (m ∷ ms) s =
    if can_add (s k).kind
    then put k (set_entry (λ x. contains (m ∷ ms) x || (s k).member x)) s
    else s

abbrev pub less_one : Option Scalar → Scalar
less_one (some (number (suc n))) = number n
less_one (some v) = v
less_one none = other (codes "-1")

abbrev pub removed_from : Store → List Text → Store
removed_from s ks j = if contains ks j then absent_entry else s j

-- A glob of stars and plain characters
abbrev pub star : (Text → Bool) → Text → Bool
star p [] = p []
star p (c ∷ s) = p (c ∷ s) || star p s

abbrev pub one_char : ℕ → (Text → Bool) → Text → Bool
one_char c p [] = false
one_char c p (d ∷ s) = c == d && p s

abbrev pub matches : Text → Text → Bool
matches [] [] = true
matches [] (c ∷ s) = false
matches (c ∷ p) s = if c == b'*' then star (matches p) s else one_char c (matches p) s

star-all : (s : Text) → star (matches []) s ≡ true
star-all [] = refl
star-all (c ∷ s) = ground (arith, star-all s)

pub matches-star :
    (p s : Text) → any is_special p ≡ false → matches (p ++ codes "*") s ≡ starts_with p s
unfolding starts_with
matches-star [] s h = star-all s
matches-star (c ∷ p) [] h = ground arith
matches-star (c ∷ p) (d ∷ s) h = ground (arith, matches-star p s (ground arith))

pub add_self :
    (s : Store) (k m : Text) (ms : List Text)
    → can_add (s k).kind ≡ true
    → add k (m ∷ ms) s k ≡ set_entry (λ x. contains (m ∷ ms) x || (s k).member x)
add_self s k m ms h = rw h (rw (text_eq_refl k) refl)

pub add-frame : (s : Store) (k j : Text) (ms : List Text) → text_eq k j ≡ false → add k ms s j ≡ s j
add-frame s k j [] h = refl
add-frame s k j (m ∷ ms) h = elim (Bool-cases (can_add (s k).kind)) [
  | inl t ↦ rw t (rw h refl)
  | inr f ↦ rw f refl
]

abbrev pub redis : RedisServer
redis = record {
  Store = Store;
  read = λ s k. s k;
  set = λ s k v. put k (string_entry v) s;
  hset = λ s k fs. put k (merge fs (s k)) s;
  sadd = λ s k ms. add k ms s;
  decr = λ s k. put k (string_entry (less_one (s k).scalar)) s;
  del = removed_from;
  removed = λ s ks. count (λ k. exists_kind (s k).kind) ks;
  glob = matches;
  set_self = λ s k v. put_self k (string_entry v) s;
  set_frame = λ s k j v h. put-frame k j (string_entry v) s h;
  hset_new = λ s k fs h. put_self k (merge fs (s k)) s ∙ rw h (merge-absent fs);
  hset_frame = λ s k j fs h. put-frame k j (merge fs (s k)) s h;
  sadd_self = add_self;
  sadd_frame = add-frame;
  decr_self = λ s k n h. put_self k (string_entry (less_one (s k).scalar)) s ∙ rw h refl;
  decr_frame = λ s k j h. put-frame k j (string_entry (less_one (s k).scalar)) s h;
  del_law = λ s ks j. refl;
  glob_star = matches-star;
}
