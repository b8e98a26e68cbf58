-- ===== src/Rpc/Live.antt =====
-- internal/rpc/registry.go: the registry keeps what its specification says, a function from a user and
-- a session id to the session that was tracked last and not untracked since.
use teled.Prelude.{
  ◌≡◌, ◌≢◌, inl, inr, refl, sym, ap, ◌∙◌, List, [], ◌∷◌, Option, some, none, Int64, Map, get, put,
  delete, values, or_else, get-put, get-delete, get-put_self, get-put_ne, get-delete_self,
  get-delete_ne, ℕ_discrete, Option-cases, ite, if_pos, if_neg,
}
use teled.Types.{Time}
use teled.Rpc.Registry.{
  Session, SessionRegistry, new_session_registry, track, untrack, keep_sessions, live, last_seen_at,
}

abbrev pub sessions_of : Int64 → SessionRegistry → Map Int64 Session
sessions_of user_id r = or_else (get ℕ_discrete user_id r.m) []

-- The session that a user has under an id.
abbrev pub session_at : SessionRegistry → Int64 → Int64 → Option Session
session_at r user_id session_id = get ℕ_discrete session_id (sessions_of user_id r)

-- A call that changes the registry.
pub data Event : Type 0 where
  tracked : Int64 → Session → Time → Event
  untracked : Int64 → Int64 → Event

-- What the registry does at a call, and after calls in order.
abbrev pub act : Event → SessionRegistry → SessionRegistry
act (tracked user_id s now) r = track user_id s now r
act (untracked user_id session_id) r = untrack user_id session_id r

abbrev pub after : List Event → SessionRegistry
after [] = new_session_registry
after (e ∷ earlier) = act e (after earlier)

-- The specification, over the same calls, the latest first.
abbrev pub tracked_session : List Event → Int64 → Int64 → Option Session
tracked_session [] v j = none
tracked_session (tracked u s now ∷ earlier) v j =
    ite (ℕ_discrete v u) (ite (ℕ_discrete j s.id) (some s) (tracked_session earlier v j))
      (tracked_session earlier v j)
tracked_session (untracked u i ∷ earlier) v j =
    ite (ℕ_discrete v u) (ite (ℕ_discrete j i) none (tracked_session earlier v j))
      (tracked_session earlier v j)

abbrev pub last_activity : List Event → Int64 → Option Time
last_activity [] v = none
last_activity (tracked u s now ∷ earlier) v =
    ite (ℕ_discrete v u) (some now) (last_activity earlier v)
last_activity (untracked u i ∷ earlier) v = last_activity earlier v

session_at-track :
    (u : Int64) (s : Session) (now : Time) (r : SessionRegistry) (v j : Int64)
    → session_at (track u s now r) v j
      ≡ ite
          (ℕ_discrete v u)
          (ite (ℕ_discrete j s.id) (some s) (session_at r v j))
          (session_at r v j)
unfolding track
session_at-track u s now r v j =
    let sessions = put ℕ_discrete s.id s (sessions_of u r) in
    elim (ℕ_discrete v u) [
      | yes e ↦ rw e (
          ap (λ o. get ℕ_discrete j (or_else o [])) (get-put_self ℕ_discrete u sessions r.m)
          ∙ get-put ℕ_discrete s.id j s (sessions_of u r)
          ∙ sym (if_pos (ℕ_discrete u u) refl _ _))
      | no ne ↦
          ap (λ o. get ℕ_discrete j (or_else o [])) (get-put_ne ℕ_discrete u v sessions r.m ne)
          ∙ sym (if_neg (ℕ_discrete v u) ne _ _)
    ]

get-keep_sessions_self :
    (u : Int64) (sessions : Map Int64 Session) (m : Map Int64 (Map Int64 Session))
    → or_else (get ℕ_discrete u (keep_sessions u sessions m)) [] ≡ sessions
unfolding keep_sessions
get-keep_sessions_self u [] m = rw (get-delete_self ℕ_discrete u m) refl
get-keep_sessions_self u (s ∷ rest) m = rw (get-put_self ℕ_discrete u (s ∷ rest) m) refl

get-keep_sessions_ne :
    (u v : Int64) (sessions : Map Int64 Session) (m : Map Int64 (Map Int64 Session))
    → v ≢ u
    → get ℕ_discrete v (keep_sessions u sessions m) ≡ get ℕ_discrete v m
unfolding keep_sessions
get-keep_sessions_ne u v [] m ne = get-delete_ne ℕ_discrete u v m ne
get-keep_sessions_ne u v (s ∷ rest) m ne = get-put_ne ℕ_discrete u v (s ∷ rest) m ne

session_at-keep_sessions :
    (u i : Int64) (r r' : SessionRegistry) (sessions : Map Int64 Session) (v j : Int64)
    → sessions_of u r ≡ sessions
    → r'.m ≡ keep_sessions u (delete ℕ_discrete i sessions) r.m
    → session_at r' v j
      ≡ ite (ℕ_discrete v u) (ite (ℕ_discrete j i) none (session_at r v j)) (session_at r v j)
session_at-keep_sessions u i r r' sessions v j here stored =
    let left = delete ℕ_discrete i sessions in
    ap (λ m. get ℕ_discrete j (or_else (get ℕ_discrete v m) [])) stored ∙ elim (ℕ_discrete v u) [
      | yes e ↦
          rw (e, here)
            (ap (get ℕ_discrete j) (get-keep_sessions_self u left r.m)
              ∙ get-delete ℕ_discrete i j sessions
              ∙ sym (if_pos (ℕ_discrete u u) refl _ _))
      | no ne ↦
          ap (λ o. get ℕ_discrete j (or_else o [])) (get-keep_sessions_ne u v left r.m ne)
          ∙ sym (if_neg (ℕ_discrete v u) ne _ _)
    ]

-- A user who is not in the map has no session to remove.
session_at-absent :
    (u i : Int64) (r : SessionRegistry) (v j : Int64)
    → get ℕ_discrete u r.m ≡ none
    → session_at r v j
      ≡ ite (ℕ_discrete v u) (ite (ℕ_discrete j i) none (session_at r v j)) (session_at r v j)
unfolding get
session_at-absent u i r v j away = elim (ℕ_discrete v u) [
  | yes e ↦
      let nothing : session_at r v j ≡ none =
        ap (λ x. get ℕ_discrete j (or_else (get ℕ_discrete x r.m) [])) e
        ∙ ap (λ o. get ℕ_discrete j (or_else o [])) away in
      elim (ℕ_discrete j i) [
        | yes q ↦
            nothing ∙ sym (if_pos (ℕ_discrete j i) q _ _) ∙ sym (if_pos (ℕ_discrete v u) e _ _)
        | no q ↦ sym (if_neg (ℕ_discrete j i) q _ _) ∙ sym (if_pos (ℕ_discrete v u) e _ _)
      ]
  | no ne ↦ sym (if_neg (ℕ_discrete v u) ne _ _)
]

pub session_at-untrack :
    (u i : Int64) (r : SessionRegistry) (v j : Int64)
    → session_at (untrack u i r) v j
      ≡ ite (ℕ_discrete v u) (ite (ℕ_discrete j i) none (session_at r v j)) (session_at r v j)
unfolding untrack
session_at-untrack u i r v j = elim (Option-cases (get ℕ_discrete u r.m)) [
  | inl e ↦ rw (e, untrack) (session_at-absent u i r v j e)
  | inr (sessions, e) ↦
      session_at-keep_sessions u i r (untrack u i r) sessions v j (ap (λ o. or_else o []) e)
        (rw (e, untrack) refl)
]

pub last_seen_at-untrack :
    (u i : Int64) (r : SessionRegistry) (v : Int64)
    → last_seen_at v (untrack u i r) ≡ last_seen_at v r
unfolding untrack last_seen_at
last_seen_at-untrack u i r v = elim (Option-cases (get ℕ_discrete u r.m)) [
  | inl e ↦ rw (e, untrack) refl
  | inr (sessions, e) ↦ rw (e, untrack) refl
]

pub live-lem : (v : Int64) (r : SessionRegistry) → live v r ≡ values (sessions_of v r)
unfolding live
live-lem v r = elim (Option-cases (get ℕ_discrete v r.m)) [
  | inl e ↦ rw (e, live) refl
  | inr (sessions, e) ↦ rw (e, live) refl
]

-- Whatever the calls, the registry has for each user and session id what the specification says,
-- each user's last activity is that of the last tracked request, and the live sessions of a user
-- are all that the registry holds for the user.
pub after-refines :
    (events : List Event) (v j : Int64)
    → (session_at (after events) v j ≡ tracked_session events v j)
      × (last_seen_at v (after events) ≡ last_activity events v)
      × (live v (after events) ≡ values (sessions_of v (after events)))
unfolding get last_seen_at track
after-refines [] v j = (refl, refl, live-lem v (after []))
after-refines (tracked u s now ∷ earlier) v j =
    let ih = after-refines earlier v j in
    (
      session_at-track u s now (after earlier) v j
          ∙ ap (λ x. ite (ℕ_discrete v u) (ite (ℕ_discrete j s.id) (some s) x) x) ih.0,
      get-put ℕ_discrete u v now (after earlier).last_seen
          ∙ ap (ite (ℕ_discrete v u) (some now)) ih.1,
      live-lem v (after (tracked u s now ∷ earlier)),
    )
after-refines (untracked u i ∷ earlier) v j =
    let ih = after-refines earlier v j in
    (
      session_at-untrack u i (after earlier) v j
          ∙ ap (λ x. ite (ℕ_discrete v u) (ite (ℕ_discrete j i) none x) x) ih.0,
      last_seen_at-untrack u i (after earlier) v ∙ ih.1,
      live-lem v (after (untracked u i ∷ earlier)),
    )
