-- ===== src/Mtproto/Keys.antt =====
-- internal/mtproto/keystorage.go: where auth keys are kept. The interface KeyStorage is a record of its methods over a
-- state, with its documented behaviour as laws; InMemoryKeys is the implementation on a map.
use teled.Prelude.{
  ℕ, ◌≡◌, ◌≢◌, ◌⊎◌, inl, refl, List, [], none, some, Bool, true, Map, get, put, get-put_self,
  get-put_ne, length, ℕ_discrete,
}

-- The eight bytes of a key's id, as a number.
abbrev pub AuthKeyId : Type 0
AuthKeyId = ℕ

-- crypto.AuthKey: its id and its value.
pub record AuthKey : Type 0 where
  pub id : AuthKeyId
  pub value : List ℕ

-- What a lookup answers: a key, no key, or an error.
pub data Fetched : Type 0 where
  fetched : AuthKey → Fetched
  absent unavailable : Fetched

-- KeyStorage. Save tells whether there was no error.
pub record KeyStorage (S : Type 0) : Type 0 where
  pub save : AuthKey → S → Bool × S
  pub fetch : AuthKeyId → S → Fetched

-- Once a key was saved without an error, its id has a key: this one, or the one that the storage had under
-- the id, which a storage may keep. Saving a key changes nothing under another id.
pub record IsKeyStorage {S : Type 0} (K : KeyStorage S) : Type 0 where
  pub saved :
      (key : AuthKey) (s : S)
      → (K.save key s).0 ≡ true
      → (K.fetch key.id (K.save key s).1 ≡ fetched key)
        ⊎ (k : AuthKey) × (K.fetch key.id s ≡ fetched k)
          × (K.fetch key.id (K.save key s).1 ≡ fetched k)
  pub apart :
      (key : AuthKey) (id : AuthKeyId) (s : S)
      → id ≢ key.id
      → K.fetch id (K.save key s).1 ≡ K.fetch id s

-- InMemoryKeys.
abbrev pub InMemoryKeys : Type 0
InMemoryKeys = Map AuthKeyId AuthKey

abbrev pub new_in_memory_keys : InMemoryKeys
new_in_memory_keys = []

unfoldable pub save_key : AuthKey → InMemoryKeys → Bool × InMemoryKeys
save_key key s = (true, put ℕ_discrete key.id key s)

unfoldable pub key_by_id : AuthKeyId → InMemoryKeys → Fetched
key_by_id id s = elim (get ℕ_discrete id s) [ none ↦ absent | some key ↦ fetched key ]

-- Len.
unfoldable pub key_count : InMemoryKeys → ℕ
key_count s = length s

unfoldable pub in_memory : KeyStorage InMemoryKeys
unfolding save_key key_by_id
in_memory = record { save = save_key; fetch = key_by_id }

pub in_memory-IsKeyStorage : IsKeyStorage in_memory
unfolding in_memory save_key key_by_id
in_memory-IsKeyStorage = record {
  saved = λ key s e. inl (rw (key_by_id, get-put_self ℕ_discrete key.id key s) refl);
  apart = λ key id s ne. rw (key_by_id, get-put_ne ℕ_discrete key.id id key s ne) refl;
}
