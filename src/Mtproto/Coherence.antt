-- ===== src/Mtproto/Coherence.antt =====
-- internal/mtproto/registry.go, addSession and getSession: the cache before the KeyStorage is not seen.
use teled.Prelude.{
  ◌≡◌, refl, sym, ap, ◌∙◌, inl, inr, List, [], ◌∷◌, some, true, get, put, get-put_ne, get-put_found,
  ◌⊎◌, All, subst, ℕ_discrete, Option-cases,
}
use teled.Mtproto.Keys.{
  AuthKeyId, AuthKey, Fetched, fetched, absent, unavailable, KeyStorage, IsKeyStorage,
}
use teled.Mtproto.Registry.{Registry, new_registry, add_session, get_session}

-- A call of the server about keys.
pub data KeyCall : Type 0 where
  add : AuthKey → KeyCall
  look_up : AuthKeyId → KeyCall

Fetched-cases :
    (f : Fetched) → ((key : AuthKey) × (f ≡ fetched key)) ⊎ ((f ≡ absent) ⊎ (f ≡ unavailable))
Fetched-cases (fetched key) = inl (key, refl)
Fetched-cases absent = inr (inl refl)
Fetched-cases unavailable = inr (inr refl)

module _ {S : Type 0} (K : KeyStorage S) where
  -- What the lookups answer in a run of calls: over the registry, and over the storage without a cache.
  abbrev pub cached : List KeyCall → Registry S → List Fetched
  cached [] r = []
  cached (add key ∷ calls) r = cached calls (add_session K key r).1
  cached (look_up id ∷ calls) r = (get_session K id r).0 ∷ cached calls (get_session K id r).1

  abbrev pub direct : List KeyCall → S → List Fetched
  direct [] s = []
  direct (add key ∷ calls) s = direct calls (K.save key s).1
  direct (look_up id ∷ calls) s = K.fetch id s ∷ direct calls s

  -- What is cached is what the storage has.
  abbrev Coherent : Registry S → Type 0
  Coherent r =
      (id : AuthKeyId) (key : AuthKey)
      → get ℕ_discrete id r.cache ≡ some key
      → K.fetch id r.keys ≡ fetched key

  -- The ids of keys are hashes of them: key_of tells the one key that an id stands for.
  module _ (key_of : AuthKeyId → AuthKey) where
    abbrev pub IsNamed : KeyCall → Type 0
    IsNamed (add key) = key ≡ key_of key.id
    IsNamed (look_up id) = Unit

    abbrev pub HasNamed : S → Type 0
    HasNamed s = (id : AuthKeyId) (key : AuthKey) → K.fetch id s ≡ fetched key → key ≡ key_of id

    module _ (lawful : IsKeyStorage K)
        (saves : (key : AuthKey) (s : S) → (K.save key s).0 ≡ true) where
      fetch-save :
          (key : AuthKey) (s : S)
          → key ≡ key_of key.id
          → HasNamed s
          → K.fetch key.id (K.save key s).1 ≡ fetched key
      fetch-save key s named have = elim (lawful.saved key s (saves key s)) [
        | inl e ↦ e
        | inr (k, before, after) ↦ after ∙ ap fetched (have key.id k before ∙ sym named)
      ]

      save-HasNamed :
          (key : AuthKey) (s : S) → key ≡ key_of key.id → HasNamed s → HasNamed (K.save key s).1
      save-HasNamed key s named have id k e = elim (ℕ_discrete id key.id) [
        | yes same ↦
            let there : K.fetch id (K.save key s).1 ≡ fetched key =
              ap (λ x. K.fetch x (K.save key s).1) same ∙ fetch-save key s named have in
            let one : k ≡ key = cc in one ∙ named ∙ ap key_of (sym same)
        | no other ↦ have id k (sym (lawful.apart key id s other) ∙ e)
      ]

      add_session-Coherent :
          (key : AuthKey) (r : Registry S)
          → key ≡ key_of key.id
          → HasNamed r.keys
          → Coherent r
          → Coherent (add_session K key r).1
      unfolding add_session
      add_session-Coherent key r named have h id found e = elim (ℕ_discrete id key.id) [
        | yes same ↦
            ap (λ x. K.fetch x (K.save key r.keys).1) same
            ∙ fetch-save key r.keys named have
            ∙ ap fetched (get-put_found ℕ_discrete key.id id key found r.cache e same)
        | no other ↦
            lawful.apart key id r.keys other
            ∙ h id found (sym (get-put_ne ℕ_discrete key.id id key r.cache other) ∙ e)
      ]

      put-Coherent :
          (id : AuthKeyId) (key : AuthKey) (r : Registry S)
          → K.fetch id r.keys ≡ fetched key
          → Coherent r
          → Coherent (record r { cache = put ℕ_discrete id key r.cache })
      put-Coherent id key r q h j found e = elim (ℕ_discrete j id) [
        | yes same ↦
            ap (λ x. K.fetch x r.keys) same
            ∙ q
            ∙ ap fetched (get-put_found ℕ_discrete id j key found r.cache e same)
        | no other ↦ h j found (sym (get-put_ne ℕ_discrete id j key r.cache other) ∙ e)
      ]

      get_session-fetch :
          (id : AuthKeyId) (r : Registry S)
          → Coherent r
          → ((get_session K id r).0 ≡ K.fetch id r.keys)
            × ((get_session K id r).1.keys ≡ r.keys)
            × Coherent (get_session K id r).1
      unfolding get_session
      get_session-fetch id r h = elim (Option-cases (get ℕ_discrete id r.cache)) [
        | inl e ↦ elim (Fetched-cases (K.fetch id r.keys)) [
          | inl (key, q) ↦ rw (e, q, get_session) (refl, refl, put-Coherent id key r q h)
          | inr (inl q) ↦ rw (e, q, get_session) (refl, refl, h)
          | inr (inr q) ↦ rw (e, q, get_session) (refl, refl, h)
        ]
        | inr (key, e) ↦ rw (e, get_session) (sym (h id key e), refl, h)
      ]

      cached-Coherent :
          (calls : List KeyCall) (r : Registry S)
          → All IsNamed calls
          → HasNamed r.keys
          → Coherent r
          → cached calls r ≡ direct calls r.keys
      unfolding add_session
      cached-Coherent [] r named have h = refl
      cached-Coherent (add key ∷ calls) r named have h =
          cached-Coherent calls (add_session K key r).1 named.1
            (save-HasNamed key r.keys named.0 have) (add_session-Coherent key r named.0 have h)
      cached-Coherent (look_up id ∷ calls) r named have h =
          let (answer, kept, still) = get_session-fetch id r h in
          let rest =
            cached-Coherent calls (get_session K id r).1 named.1 (subst HasNamed (sym kept) have)
              still in
          ap (λ a. a ∷ cached calls (get_session K id r).1) answer
          ∙ ap (λ l. K.fetch id r.keys ∷ l) (rest ∙ ap (direct calls) kept)

      -- Over a storage that keeps its laws and whose Save does not fail, where an id stands for one key in
      -- the storage and in the calls, a run of addSession and getSession on a new registry answers what the
      -- storage alone answers to the same calls, however the calls follow one another. The storage may
      -- overwrite a key that is saved again, or keep the one it has.
      pub cached-direct :
          (calls : List KeyCall) (keys : S)
          → All IsNamed calls
          → HasNamed keys
          → cached calls (new_registry keys) ≡ direct calls keys
      unfolding get
      cached-direct calls keys named have =
          cached-Coherent calls (new_registry keys) named have (λ id key e. cc)
