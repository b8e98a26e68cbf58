-- ===== src/Rpc/ServerTests.antt =====
-- A concrete server with two accounts that are logged in, what its handlers answer, and instances of the theorems
-- about pushes, messages, uploads and files.
use teled.Prelude.{
  false, ◌+◌, ◌-◌, ◌≡◌, refl, arith, [], ◌∷◌, some, none, codes, str_eq, int, int0, get, put, keep,
  some_in, ℕ, ℕ_discrete, Str-discrete, ◌==◌,
}
use teled.Types.{File}
use teled.Objects.{Objects, stored, slice_panic, put_object, get_range}
use teled.Objects.Ranges
use teled.Objects.Ranges.{download}
use teled.Memory.State.{MemMessage, Db, new_db}
use teled.Memory.Account.{IsValid}
use teled.Memory.Rows.{bind_session, session_user_id, perm_auth_key}
use teled.Memory.Users.{user_by_username, set_username, user_by_id, human}
use teled.Memory.Messages.{send_message, new_message}
use teled.Memory.Updates.{save_file}
use teled.Memory.Tests.{alice, bob, alice_row, bob_row, two, two-IsValid}
use teled.Rpc.Reply.{reply, fail, username_occupied}
use teled.Rpc.Caller.{
  peer_user, caller_user, resolve_peer_user, require_caller, checked_user, effective_key_id,
}
use teled.Rpc.Registry.{Session, SessionRegistry, track, live, new_session_registry}
use teled.Rpc.Live.{session_at}
use teled.Rpc.Server.{Context, Server, Updates, seen_by, push}
use teled.Rpc.Staging.{StagingKey-discrete, assemble}
use teled.Rpc.Staging.Parts
use teled.Rpc.Staging.Parts.{Uploads, staged, sent_last}
use teled.Rpc.Media.{file_location, upload_get_file, upload_save_file_part, messages_send_media}
use teled.Rpc.Pushing
use teled.Rpc.Sending
use teled.Rpc.Sending.{told_peer}
use teled.Rpc.Filing
use teled.Rpc.Naming
use teled.Rpc.Drafting
use teled.Rpc.Drafting.{draft_at}
use teled.Rpc.Drafts.{messages_save_draft}
use teled.Rpc.Messages.{contacts_resolve_username}
use teled.Rpc.Account.{account_update_username, username_matches}
use teled.Rpc.Filing.{send_upload}

program : Unit {0}
unfolding get put keep some_in ℕ_discrete Str-discrete StagingKey-discrete bind_session
    session_user_id perm_auth_key user_by_id caller_user effective_key_id resolve_peer_user
    checked_user track live new_db human
program = tt

-- Alice is logged in under key 8 and Bob under key 9.
abbrev logged_in : Db
logged_in = bind_session 9 bob (bind_session 8 alice two)

logged_in-IsValid : IsValid logged_in
unfolding bind_session
logged_in-IsValid = record {
  accounts = two-IsValid.accounts;
  strangers = two-IsValid.strangers;
  numbered = two-IsValid.numbered;
}

-- Bob has two sessions; the connection of the second is gone.
abbrev bob_phone : Session
bob_phone = record { id = int 4; key = 9 }

abbrev bob_desk : Session
bob_desk = record { id = int 5; key = 9 }

abbrev online : SessionRegistry
online = track bob bob_desk 7 (track bob bob_phone 6 new_session_registry)

abbrev server : Server
server = record { db = logged_in; store = some []; sessions = online; staging = []; pushed = [] }

-- A request under a key.
abbrev under : ℕ → Context
under key = record {
  key = some key;
  now = 9;
  reaches = λ s. s.id == int 4;
  secret = codes "ref";
  raw = int 3;
  trim_space = λ s. s;
  to_lower = λ s. s;
  equal_fold = str_eq;
  fields = λ s. s ∷ [];
}

abbrev note : Updates
note = record { updates = []; users = []; date = int 9 }

-- The session that the push does not reach is gone, the other one is there and has the updates.
push_lem_example :
    ((push (under 8) bob note server).pushed ≡ (bob_phone, note) ∷ [])
    × (session_at (push (under 8) bob note server).sessions bob (int 5) ≡ none)
unfolding program
push_lem_example = (
  (Pushing.push_lem (under 8) bob note server bob (int 5)).0,
  (Pushing.push_lem (under 8) bob note server bob (int 5)).1,
)

messages_send_message-delivers_example :
    (m : MemMessage) × (h' : Server) × (m
      ≡ new_message m.global_id alice bob (codes "hi") (int 1) int0 9)
    × (h'.pushed
        ≡ (bob_phone, told_peer (under 8) alice_row.u bob_row.u bob_row m server h'.db) ∷ [])
unfolding program
messages_send_message-delivers_example =
    let r =
      Sending.messages_send_message-delivers (under 8) (peer_user bob (int 8)) (codes "hi") (int 1)
        server alice_row.u bob_row.u alice_row bob_row refl refl logged_in-IsValid refl refl
        (omega arith) (omega arith) (omega arith, omega arith) (omega arith, omega arith)
        (omega arith) in
    (r.0, r.1, r.2, r.4)

-- An object of five bytes, read in pieces of two, and a range of it that overflows.
abbrev store : Objects
store = (put_object (codes "k") (some (codes "hello")) []).1

download-put_object_example : download 2 3 0 (codes "k") store ≡ stored (codes "hello")
unfolding put_object
download-put_object_example =
    Ranges.download-put_object 2 2 (codes "k") (codes "hello") [] (omega arith) (omega arith)
      (omega arith)

get_range_lem_example : get_range (codes "k") (int 1) (int0 + (int0 - 1)) store ≡ slice_panic
unfolding program put_object
get_range_lem_example =
    Ranges.get_range_lem (codes "k") (int 1) (int0 + (int0 - 1)) store (codes "hello") refl
      (omega arith) (omega arith) (omega arith) (omega arith)

-- The second part comes first, and the first part twice.
abbrev parts : Uploads
parts = (int 0, codes "he") ∷ (int 0, codes "xx") ∷ (int 1, codes "llo") ∷ []

assemble-Holds_example : assemble (staged parts) ≡ codes "hello"
unfolding program
assemble-Holds_example =
    Parts.assemble-Holds parts (codes "he") (codes "llo" ∷ []) (refl, (refl, tt))
      (omega arith, (omega arith, (omega arith, tt)))

-- Bob reads two bytes of the file that Alice has uploaded and sent to him.
upload_get_file-send_upload_example :
    (f : File) × (upload_get_file
        (under 9)
        (file_location f.id f.access_hash [])
        (int 1)
        (int 2)
        (send_upload (λ b. b) (under 8) (int 6) parts (peer_user bob (int 8)) [] (int 1) server).1
      ≡ (
        reply (codes "el"),
        (send_upload (λ b. b) (under 8) (int 6) parts (peer_user bob (int 8)) [] (int 1) server).1,
      ))
unfolding program upload_save_file_part require_caller messages_send_media send_message save_file
upload_get_file-send_upload_example =
    let r =
      Filing.upload_get_file-send_upload (λ b. b) (under 8) (int 6) parts (codes "he")
        (codes "llo" ∷ []) (peer_user bob (int 8)) [] (int 1) server [] alice_row.u bob_row.u
        alice_row bob_row (under 9) bob_row.u [] 1 2 refl refl refl refl refl refl
        ((omega arith, omega arith), ((omega arith, omega arith), ((omega arith, omega arith), tt)))
        (refl, (refl, tt)) (omega arith, (omega arith, (omega arith, tt))) (omega arith) refl
        (omega arith) (omega arith) in
    (r.0, r.3)

-- Alice takes a name; Bob finds her by it, and does not get it.
contacts_resolve_username-account_update_username_example :
    let h' = (account_update_username (under 8) (codes "wonder") server).1 in
    (contacts_resolve_username (under 9) (codes "wonder") h' ≡ (
      reply (alice, seen_by (under 9) h' (record alice_row.u { username = codes "wonder" }) false),
      h',
    ))
    × (account_update_username (under 9) (codes "wonder") h' ≡ (fail username_occupied, h'))
unfolding program username_matches user_by_username account_update_username require_caller
    set_username
contacts_resolve_username-account_update_username_example =
    let r =
      Naming.contacts_resolve_username-account_update_username (under 8) (codes "wonder") server
        alice_row.u alice_row (under 9) bob_row.u refl refl refl refl refl refl (omega arith)
        refl in
    (r.1, r.2)

-- Alice writes to Bob, and has not sent it yet.
messages_save_draft_lem_example :
    draft_at
      (messages_save_draft (under 8) (peer_user bob (int 8)) (codes "wip") server).1.db
      alice
      bob
    ≡ some (record { peer_user_id = bob; text = codes "wip"; date = 9 })
unfolding program
messages_save_draft_lem_example =
    (Drafting.messages_save_draft_lem (under 8) (peer_user bob (int 8)) (codes "wip") server
      alice_row.u bob_row.u alice bob refl refl).1
