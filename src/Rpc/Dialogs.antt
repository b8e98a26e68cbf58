-- ===== src/Rpc/Dialogs.antt =====
-- internal/rpc/messages_more.go: the dialog list, reading, editing and deleting.
use teled.Prelude.{
  List, [], ◌∷◌, ◌++◌, Option, none, some, Bool, true, false, Str, Int64, int0, int, Map, get, put,
  ltb, ◌==◌, if◌then◌else◌, ℕ_discrete, or_else,
}
use teled.Types.{
  User, Draft, Dialog, State, Message, EditResult, ReadResult, Error, unix, ok, err, panic,
}
use teled.Memory.Messages.{get_history}
use teled.Memory.Revisions.{edit_message, delete_messages}
use teled.Memory.Reading.{get_dialogs, new_dialog, read_history}
use teled.Memory.Rows.{drafts}
use teled.Memory.Updates.{get_state}
use teled.Memory.Users.{user_by_id}
use teled.Rpc.Reply.{
  Exec, reply, fail, crash, ◌>>=◌, ◌>>◌, return, look, save, call, internal, RpcError,
}
use teled.Rpc.Caller.{InputPeer, resolve_peer_user}
use teled.Rpc.Updates.{ask}
use teled.Rpc.Server.{
  Context, TgUser, Updates, history_inbox, history_outbox, edited_message, Server, on_db, push,
  seen_by, caller_of, peer_of,
}
use teled.Rpc.Messages.{page, wire_message}

abbrev pub draft_by_peer : List Draft → Map Int64 Draft → Map Int64 Draft
draft_by_peer [] m = m
draft_by_peer (d ∷ ds) m = draft_by_peer ds (put ℕ_discrete d.peer_user_id d m)

-- The variables of the loops of messagesGetDialogs. `draft_only` is the list that is prepended.
pub record DialogList : Type 0 where
  pub dialogs : List Dialog
  pub messages : List Message
  pub users : List TgUser
  pub seen : Map Int64 Bool

-- What follows the lookup of the peer in the first loop.
unfoldable pub add_dialog :
    Context → User → User → Dialog → Map Int64 Draft → Server → DialogList → DialogList
add_dialog c caller peer dl by h l = record {
  dialogs = l.dialogs ++ record dl { draft = get ℕ_discrete dl.peer_user_id by } ∷ [];
  messages = l.messages ++ get_history caller.id dl.peer_user_id int0 (int 1) h.db;
  users = l.users ++ seen_by c h peer false ∷ [];
  seen = put ℕ_discrete dl.peer_user_id true l.seen;
}

unfoldable pub add_dialogs :
    Context → User → Map Int64 Draft → Server → List Dialog → DialogList → DialogList
unfolding add_dialog
add_dialogs c caller by h [] l = l
add_dialogs c caller by h (dl ∷ dls) l =
    add_dialogs c caller by h dls (elim (user_by_id dl.peer_user_id h.db) [
      | none ↦ l
      | some peer ↦ add_dialog c caller peer dl by h l
    ])

-- The second loop, over the drafts.
unfoldable pub add_drafts : Context → Server → List Draft → DialogList → DialogList
add_drafts c h [] l = l
add_drafts c h (dr ∷ drs) l = add_drafts c h drs (
    if or_else (get ℕ_discrete dr.peer_user_id l.seen) false
    then l
    else elim (user_by_id dr.peer_user_id h.db) [
      | none ↦ l
      | some peer ↦ record l {
        dialogs = l.dialogs ++ record (new_dialog dr.peer_user_id) { draft = some dr } ∷ [];
        users = l.users ++ seen_by c h peer false ∷ [];
      }
    ])

-- tg.MessagesDialogs.
pub record DialogsAnswer : Type 0 where
  pub dialogs : List Dialog
  pub messages : List Message
  pub users : List TgUser

unfoldable pub dialogs_of : Context → User → Int64 → Server → DialogsAnswer
unfolding add_dialogs add_drafts
dialogs_of c caller limit h =
    let found = drafts caller.id h.db in
    let start : DialogList = record {
      dialogs = [];
      messages = [];
      users = seen_by c h caller true ∷ [];
      seen = [];
    } in
    let covered =
      add_dialogs c caller (draft_by_peer found []) h (get_dialogs caller.id limit h.db) start in
    let all = add_drafts c h found (record covered { dialogs = [] }) in
    record { dialogs = all.dialogs ++ covered.dialogs; messages = all.messages; users = all.users }

unfoldable pub messages_get_dialogs : Context → Int64 → Exec Server DialogsAnswer
unfolding dialogs_of
messages_get_dialogs c limit = do
  caller ← caller_of c
  look (dialogs_of c caller (page (int 100) limit))

-- byPeer of messagesGetPeerDialogs.
abbrev pub dialog_by_peer : List Dialog → Map Int64 Dialog → Map Int64 Dialog
dialog_by_peer [] m = m
dialog_by_peer (d ∷ ds) m = dialog_by_peer ds (put ℕ_discrete d.peer_user_id d m)

-- One peer: tg.InputDialogPeer, or another kind of dialog, which is skipped.
unfoldable pub add_peer_dialog :
    Context → User → Map Int64 Dialog → Map Int64 Draft → Server → User → DialogList → DialogList
add_peer_dialog c caller dialogs by h peer l =
    let dl = or_else (get ℕ_discrete peer.id dialogs) (new_dialog peer.id) in
    let known = or_else (get ℕ_discrete peer.id l.seen) false in
    record {
      dialogs =
          l.dialogs ++ record dl { peer_user_id = peer.id; draft = get ℕ_discrete peer.id by } ∷ [];
      messages = l.messages ++ get_history caller.id peer.id int0 (int 1) h.db;
      users = if known then l.users else l.users ++ seen_by c h peer false ∷ [];
      seen = if known then l.seen else put ℕ_discrete peer.id true l.seen;
    }

unfoldable pub add_peer_dialogs :
    Context
    → User
    → Map Int64 Dialog
    → Map Int64 Draft
    → Server
    → List (Option InputPeer)
    → DialogList
    → DialogList
unfolding add_peer_dialog
add_peer_dialogs c caller dialogs by h [] l = l
add_peer_dialogs c caller dialogs by h (none ∷ peers) l =
    add_peer_dialogs c caller dialogs by h peers l
add_peer_dialogs c caller dialogs by h (some p ∷ peers) l =
    add_peer_dialogs c caller dialogs by h peers (elim (resolve_peer_user caller p h.db).0 [
      | reply peer ↦ add_peer_dialog c caller dialogs by h peer l
      | fail e ↦ l
      | crash ↦ l
    ])

unfoldable pub peer_dialogs_of : Context → User → List (Option InputPeer) → Server → DialogsAnswer
unfolding add_peer_dialogs
peer_dialogs_of c caller peers h =
    let start : DialogList = record {
      dialogs = [];
      messages = [];
      users = seen_by c h caller true ∷ [];
      seen = put ℕ_discrete caller.id true [];
    } in
    let l =
      add_peer_dialogs c caller (dialog_by_peer (get_dialogs caller.id (int 100) h.db) [])
        (draft_by_peer (drafts caller.id h.db) []) h peers start in
    record { dialogs = l.dialogs; messages = l.messages; users = l.users }

-- tg.MessagesPeerDialogs, with its state.
unfoldable pub messages_get_peer_dialogs :
    Context → List (Option InputPeer) → Exec Server (DialogsAnswer × State)
unfolding peer_dialogs_of
messages_get_peer_dialogs c peers = do
  caller ← caller_of c
  st ← on_db (ask (get_state caller.id c.now))
  look (λ h. (peer_dialogs_of c caller peers h, st))

-- tg.MessagesAffectedMessages.
pub record Affected : Type 0 where
  pub pts : Int64
  pub pts_count : Int64

abbrev pub inbox_read : Context → User → User → Int64 → ReadResult → Server → Updates
inbox_read c caller peer max_id res h = record {
  updates = history_inbox peer.id max_id res.unread_count res.inbox_pts (int 1) ∷ [];
  users = seen_by c h caller true ∷ seen_by c h peer false ∷ [];
  date = unix c.now;
}

abbrev pub outbox_read : Context → User → User → ReadResult → Server → Updates
outbox_read c caller peer res h = record {
  updates = history_outbox caller.id res.outbox_max_id res.outbox_pts (int 1) ∷ [];
  users = seen_by c h caller false ∷ seen_by c h peer true ∷ [];
  date = unix c.now;
}

-- The pushes of messagesReadHistory.
unfoldable pub tell_read : Context → User → User → Int64 → ReadResult → Server → Server
unfolding push
tell_read c caller peer max_id res h =
    let h' = push c caller.id (inbox_read c caller peer max_id res h) h in
    if ltb int0 res.outbox_max_id then push c peer.id (outbox_read c caller peer res h') h' else h'

unfoldable pub messages_read_history : Context → InputPeer → Int64 → Exec Server Affected
unfolding tell_read
messages_read_history c peer max_id = do
  caller ← caller_of c
  to ← peer_of caller peer
  res ← on_db (call (read_history caller.id to.id max_id c.now))
  save (tell_read c caller to max_id res)
  return (record { pts = res.inbox_pts; pts_count = int 1 })

-- EditMessage of the storage: ErrMessageID is an error of its own.
unfoldable pub edit : Context → User → Int64 → Str → Exec Server EditResult
edit c caller id text h = elim (edit_message caller.id id text c.now h.db) [
  | ok (res, d) ↦ (reply res, record h { db = d })
  | err e ↦ elim e [
    | Error.message_id_invalid ↦ (fail RpcError.message_id_invalid, h)
    | _ ↦ (fail internal, h)
  ]
  | panic ↦ (crash, h)
]

abbrev pub edit_seen : Context → User → User → Str → EditResult → Server → Updates
edit_seen c caller peer text res h = record {
  updates =
      edited_message
        (wire_message res.peer_local_id caller.id caller.id false text res.date res.edit_date none)
        res.peer_pts (int 1)
      ∷ [];
  users = seen_by c h caller false ∷ seen_by c h peer true ∷ [];
  date = unix res.edit_date;
}

unfoldable pub tell_edit : Context → User → User → Str → EditResult → Server → Server
unfolding push
tell_edit c caller peer text res h =
    if res.peer_local_id == int0 then h else push c peer.id (edit_seen c caller peer text res h) h

unfoldable pub messages_edit_message : Context → InputPeer → Int64 → Str → Exec Server Updates
unfolding edit tell_edit
messages_edit_message c peer id text = do
  caller ← caller_of c
  to ← peer_of caller peer
  res ← edit c caller id text
  save (tell_edit c caller to text res)
  look (λ h. record {
    updates =
        edited_message
          (wire_message res.self_local_id caller.id to.id true text res.date res.edit_date none)
          res.self_pts (int 1)
        ∷ [];
    users = seen_by c h caller true ∷ seen_by c h to false ∷ [];
    date = unix res.edit_date;
  })

unfoldable pub messages_delete_messages : Context → List Int64 → Exec Server Affected
messages_delete_messages c ids = do
  caller ← caller_of c
  res ← on_db (call (delete_messages caller.id ids c.now))
  return (record { pts = res.pts; pts_count = res.pts_count })
