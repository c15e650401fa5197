-- ===== src/Redis/Server.antt =====
-- The Redis server, as far as packages/redis uses it: an interface of its commands and of what its
-- manual says they do. A server's contents are seen by what it answers about a key. One command, one
-- transaction (MULTI) and one script each run with no other command between.
use sd_flash_sale.Prelude.{
  ℕ, suc, ◌≡◌, Bool, true, false, ◌||◌, List, [], ◌∷◌, ◌++◌, Option, none, some, Text, codes,
  text_eq, contains, any, if◌then◌else◌, ◌==◌, ◌&&◌,
}

-- A stored string, or a field of a hash: the number that it spells, or any other text.
pub data Scalar : Type 0 where
  number : ℕ → Scalar
  other : Text → Scalar

-- The answer to TYPE.
pub data Kind : Type 0 where
  absent string hash set : Kind

-- What a key answers to TYPE, GET, HGET and SISMEMBER.
pub record Entry : Type 0 where
  pub kind : Kind
  pub scalar : Option Scalar
  pub field : Text → Option Scalar
  pub member : Text → Bool

abbrev pub absent_entry : Entry
absent_entry = record { kind = absent; scalar = none; field = λ f. none; member = λ m. false }

abbrev pub string_entry : Scalar → Entry
string_entry v = record { kind = string; scalar = some v; field = λ f. none; member = λ m. false }

unfoldable pub lookup_field : Text → List (Text × Scalar) → Option Scalar
lookup_field f [] = none
lookup_field f ((g, v) ∷ fs) = if text_eq g f then some v else lookup_field f fs

abbrev pub hash_entry : List (Text × Scalar) → Entry
hash_entry fs = record {
  kind = hash;
  scalar = none;
  field = λ f. lookup_field f fs;
  member = λ m. false;
}

abbrev pub set_entry : (Text → Bool) → Entry
set_entry m = record { kind = set; scalar = none; field = λ f. none; member = m }

unfoldable pub starts_with : Text → Text → Bool
starts_with [] s = true
starts_with (a ∷ p) [] = false
starts_with (a ∷ p) (b ∷ s) = a == b && starts_with p s

-- `*`, `?`, `[` and `\` in a glob
abbrev pub is_special : ℕ → Bool
is_special c = c == b'*' || c == b'?' || c == b'[' || c == 92

abbrev pub can_add : Kind → Bool
can_add absent = true
can_add set = true
can_add _ = false

pub record RedisServer : Type 1 where
  pub Store : Type 0
  pub read : Store → Text → Entry
  pub set : Store → Text → Scalar → Store
  pub hset : Store → Text → List (Text × Scalar) → Store
  pub sadd : Store → Text → List Text → Store
  pub decr : Store → Text → Store
  pub del : Store → List Text → Store
  -- DEL's reply: how many of the keys were there.
  pub removed : Store → List Text → ℕ
  -- Whether a key matches the glob of SCAN.
  pub glob : Text → Text → Bool
  pub set_self : (s : Store) (k : Text) (v : Scalar) → read (set s k v) k ≡ string_entry v
  pub set_frame :
      (s : Store) (k j : Text) (v : Scalar) → text_eq k j ≡ false → read (set s k v) j ≡ read s j
  -- HSET on a key that is not there makes a hash of the given fields.
  pub hset_new :
      (s : Store) (k : Text) (fs : List (Text × Scalar))
      → read s k ≡ absent_entry
      → read (hset s k fs) k ≡ hash_entry fs
  pub hset_frame :
      (s : Store) (k j : Text) (fs : List (Text × Scalar))
      → text_eq k j ≡ false
      → read (hset s k fs) j ≡ read s j
  -- SADD of at least one member, on a set or on a key that is not there.
  pub sadd_self :
      (s : Store) (k m : Text) (ms : List Text)
      → can_add (read s k).kind ≡ true
      → read (sadd s k (m ∷ ms)) k ≡ set_entry (λ x. contains (m ∷ ms) x || (read s k).member x)
  pub sadd_frame :
      (s : Store) (k j : Text) (ms : List Text)
      → text_eq k j ≡ false
      → read (sadd s k ms) j ≡ read s j
  pub decr_self :
      (s : Store) (k : Text) (n : ℕ)
      → read s k ≡ string_entry (number (suc n))
      → read (decr s k) k ≡ string_entry (number n)
  pub decr_frame : (s : Store) (k j : Text) → text_eq k j ≡ false → read (decr s k) j ≡ read s j
  pub del_law :
      (s : Store) (ks : List Text) (j : Text)
      → read (del s ks) j ≡ (if contains ks j then absent_entry else read s j)
  -- A pattern whose only special character is a star at its end.
  pub glob_star :
      (p k : Text) → any is_special p ≡ false → glob (p ++ codes "*") k ≡ starts_with p k

-- EXISTS
abbrev pub exists_kind : Kind → Bool
exists_kind absent = false
exists_kind _ = true
