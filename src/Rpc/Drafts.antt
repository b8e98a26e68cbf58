-- ===== src/Rpc/Drafts.antt =====
-- internal/rpc/drafts.go: saving drafts, and all drafts of the caller.
use teled.Prelude.{
  List, [], ◌∷◌, ◌++◌, none, some, Bool, true, false, Str, Int64, Map, get, put, str_eq,
  if◌then◌else◌, ℕ_discrete, or_else,
}
use teled.Types.{Draft, unix}
use teled.Memory.Rows.{drafts, save_draft}
use teled.Memory.Users.{user_by_id}
use teled.Rpc.Reply.{Exec, reply, ◌>>=◌, ◌>>◌, return, look, save}
use teled.Rpc.Caller.{InputPeer}
use teled.Rpc.Server.{
  Context, TgUser, Updates, Update, draft_message, Server, on_db, push, seen_by, caller_of, peer_of,
}

-- strings.TrimSpace(text) == "".
abbrev pub is_blank : Context → Str → Bool
is_blank c text = str_eq (c.trim_space text) []

unfoldable pub messages_save_draft : Context → InputPeer → Str → Exec Server Bool
unfolding push
messages_save_draft c peer text = do
  caller ← caller_of c
  to ← peer_of caller peer
  date ←
      on_db
        (λ d. let (t, d') = save_draft (is_blank c) caller.id to.id text c.now d in (reply t, d'))
  let draft : Draft = record { peer_user_id = to.id; text = text; date = date }
  save (λ h.
      push c caller.id
        (record {
          updates = draft_message to.id (if is_blank c text then none else some draft) ∷ [];
          users = seen_by c h caller true ∷ seen_by c h to false ∷ [];
          date = unix c.now;
        })
        h)
  return true

-- The loop of messagesGetAllDrafts.
unfoldable pub draft_users :
    Context → Server → List Draft → Map Int64 Bool → List TgUser → List TgUser
draft_users c h [] seen users = users
draft_users c h (dr ∷ drs) seen users =
    let peer = dr.peer_user_id in
    elim (or_else (get ℕ_discrete peer seen) false) [
      | true ↦ draft_users c h drs seen users
      | false ↦ elim (user_by_id peer h.db) [
        | none ↦ draft_users c h drs seen users
        | some u ↦
            draft_users c h drs (put ℕ_discrete peer true seen) (users ++ seen_by c h u false ∷ [])
      ]
    ]

abbrev pub draft_updates : List Draft → List Update
draft_updates [] = []
draft_updates (dr ∷ drs) = draft_message dr.peer_user_id (some dr) ∷ draft_updates drs

unfoldable pub messages_get_all_drafts : Context → Exec Server Updates
unfolding draft_users
messages_get_all_drafts c = do
  caller ← caller_of c
  look (λ h.
      let found = drafts caller.id h.db in
      record {
        updates = draft_updates found;
        users =
            draft_users c h found (put ℕ_discrete caller.id true []) (seen_by c h caller true ∷ []);
        date = unix c.now;
      })
