-- ===== src/Rpc/Messages.antt =====
-- internal/rpc/messages.go: sending, the pushes to the recipient, history, search and the resolution of a
-- username; and the part of botfather.go that answers in the chat.
use teled.Prelude.{
  List, [], ◌∷◌, Option, none, some, Bool, true, false, ◌||◌, Str, Int64, int0, int, leb, ltb, ◌==◌,
  if◌then◌else◌,
}
use teled.Types.{Time, User, File, Message, SentMessage, bot_father_id, unix, ok, err, panic}
use teled.Memory.Messages.{send_message, get_history}
use teled.Memory.History.{search_messages}
use teled.Memory.Users.{user_by_username}
use teled.Rpc.Reply.{
  Exec, reply, fail, crash, ◌>>=◌, ◌>>◌, return, look, save, call, username_not_occupied,
}
use teled.Rpc.Caller.{InputPeer}
use teled.Rpc.BotFather.{bot_father_engine}
use teled.Rpc.Server.{
  Context, TgUser, message_id, new_message, Updates, Server, on_db, push, seen_by, caller_of,
  peer_of,
}

-- A message of the wire, as its fields that are set; the others are zero.
abbrev pub wire_message : Int64 → Int64 → Int64 → Bool → Str → Time → Time → Option File → Message
wire_message local_id from peer out text date edit_date media = record {
  global_id = int0;
  local_id = local_id;
  from_user_id = from;
  peer_user_id = peer;
  out = out;
  text = text;
  date = date;
  edit_date = edit_date;
  random_id = int0;
  media = media;
}

-- The incoming side of a sent message, as its recipient is told.
abbrev pub incoming : User → SentMessage → Str → Option File → Message
incoming from sent text media =
    wire_message sent.recipient_local_id from.id from.id false text sent.date 0 media

abbrev pub arrival : Context → User → User → SentMessage → Str → Option File → Server → Updates
arrival c from peer sent text media h = record {
  updates = new_message (incoming from sent text media) sent.recipient_pts (int 1) ∷ [];
  users = seen_by c h from false ∷ seen_by c h peer true ∷ [];
  date = unix sent.date;
}

unfoldable pub deliver : Context → User → User → SentMessage → Str → Option File → Server → Server
unfolding push
deliver c from peer sent text media h =
    if sent.self_chat then h else push c peer.id (arrival c from peer sent text media h) h

-- The loop of handleBotFather over the replies. A send that fails is logged and ends it.
unfoldable pub send_replies : Context → User → User → List Str → Exec Server (Unit {0})
unfolding push
send_replies c caller bot_father [] h = (reply tt, h)
send_replies c caller bot_father (text ∷ rest) h =
    elim (send_message bot_father.id caller.id text int0 int0 c.now h.db) [
      | ok (sent, d) ↦
          let h' = record h { db = d } in
          send_replies c caller bot_father rest
            (push c caller.id (arrival c bot_father caller sent text none h') h')
      | err e ↦ (reply tt, h)
      | panic ↦ (crash, h)
    ]

-- A failure of the engine is logged and answers nothing.
unfoldable pub handle_bot_father : Context → User → User → Str → Exec Server (Unit {0})
unfolding send_replies bot_father_engine
handle_bot_father c caller bot_father text h =
    let (r, d) =
      bot_father_engine c.trim_space c.to_lower c.equal_fold c.fields caller text c.secret c.raw
        c.now h.db in
    elim r [
      | reply texts ↦ send_replies c caller bot_father texts (record h { db = d })
      | fail e ↦ (reply tt, record h { db = d })
      | crash ↦ (crash, record h { db = d })
    ]

-- The answer of the sender's side.
abbrev pub departure :
    Context → User → User → SentMessage → Str → Int64 → Option File → Server → Updates
departure c caller peer sent text random_id media h = record {
  updates =
      message_id sent.sender_local_id random_id
      ∷ new_message
          (wire_message sent.sender_local_id caller.id peer.id true text sent.date 0 media)
          sent.sender_pts (int 1)
      ∷ [];
  users = seen_by c h caller true ∷ seen_by c h peer false ∷ [];
  date = unix sent.date;
}

-- What follows the resolution of caller and peer.
unfoldable pub send_to : Context → User → User → Str → Int64 → Exec Server Updates
unfolding deliver handle_bot_father
send_to c caller peer text random_id = do
  sent ← on_db (call (send_message caller.id peer.id text random_id int0 c.now))
  save (deliver c caller peer sent text none)
  (if peer.id == bot_father_id then handle_bot_father c caller peer text else return tt)
  look (departure c caller peer sent text random_id none)

unfoldable pub messages_send_message : Context → InputPeer → Str → Int64 → Exec Server Updates
unfolding send_to
messages_send_message c peer text random_id = do
  caller ← caller_of c
  to ← peer_of caller peer
  send_to c caller to text random_id

-- limit <= 0 or above the most that is shown.
abbrev pub page : Int64 → Int64 → Int64
page most limit = if leb limit int0 || ltb most limit then most else limit

-- tg.MessagesMessages.
pub record MessagePage : Type 0 where
  pub messages : List Message
  pub users : List TgUser

unfoldable pub messages_get_history : Context → InputPeer → Int64 → Int64 → Exec Server MessagePage
messages_get_history c peer offset_id limit = do
  caller ← caller_of c
  to ← peer_of caller peer
  look (λ h. record {
    messages = get_history caller.id to.id offset_id (page (int 100) limit) h.db;
    users = seen_by c h caller true ∷ seen_by c h to false ∷ [];
  })

unfoldable pub messages_get_saved_history : Context → Int64 → Int64 → Exec Server MessagePage
messages_get_saved_history c offset_id limit = do
  caller ← caller_of c
  look (λ h. record {
    messages = get_history caller.id caller.id offset_id (page (int 100) limit) h.db;
    users = seen_by c h caller true ∷ [];
  })

unfoldable pub messages_search : Context → InputPeer → Str → Int64 → Exec Server MessagePage
messages_search c peer q limit = do
  caller ← caller_of c
  to ← peer_of caller peer
  look (λ h. record {
    messages =
        search_messages c.to_lower c.trim_space caller.id to.id q (page (int 100) limit) h.db;
    users = seen_by c h caller true ∷ seen_by c h to false ∷ [];
  })

-- tg.ContactsResolvedPeer: the peer's id and its user.
unfoldable pub contacts_resolve_username : Context → Str → Exec Server (Int64 × TgUser)
contacts_resolve_username c username h = elim (user_by_username username h.db) [
  | none ↦ (fail username_not_occupied, h)
  | some u ↦ (reply (u.id, seen_by c h u false), h)
]
