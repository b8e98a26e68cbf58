-- ===== src/Memory/Account/Send.antt =====
-- memory/db.go, SendMessage: it delivers one message to both accounts and keeps the database valid.
use teled.Prelude.{
  ◌+◌, ◌<◌, ◌≡◌, ◌≢◌, inl, inr, refl, sym, ◌∙◌, [], ◌∷◌, ◌++◌, some, none, true, false, arith,
  Int64, int0, inc, word, get-put_self, get, put, ℕ_discrete, Str, ==_iff, ==_false, Bool,
}
use teled.Types.{Time, SentMessage, UpdateType, ok, panic}
use teled.Memory.State.{Db, MemUser, MemMessage, user_of, message_of, refs_of, updates_of}
use teled.Memory.Messages.{
  bump, allocate, new_message, store_message, store_copy, sent_copy, store_peer_copy, send_message,
}
use teled.Memory.Account.{IsValid, SameElsewhere}
use teled.Memory.Account.Extend.{Extends-IsValid, Extends-put_new}
use teled.Memory.Account.Copy.{
  entry, new_ref, copied, store_copy-copied, copied-SameElsewhere, copied-IsValid,
}

-- The counters of an account do not wrap at the next message.
abbrev pub HasRoom : MemUser → Type 0
HasRoom mu = (mu.last_message_id + 1 < word) × (mu.pts + 1 < word)

-- Account u, whose row was mu, has one copy more of the message: the next local id, the next pts, and
-- one log entry that announces the message.
pub record HasCopy (u global_id : Int64) (out : Bool) (now : Time) (mu : MemUser) (d d' : Db)
    : Type 0 where
  pub row : user_of d' u ≡ some (bump mu)
  pub logged :
      updates_of d' u ≡ updates_of d u ++ entry (inc mu.pts) UpdateType.new global_id now ∷ []
  pub ref : get ℕ_discrete (inc mu.last_message_id) (refs_of d' u) ≡ some (new_ref mu global_id out)

copied-HasCopy :
    (u global_id : Int64) (out : Bool) (now : Time) (mu : MemUser) (d : Db)
    → HasCopy u global_id out now mu d (copied u global_id out now mu d)
copied-HasCopy u g out now mu d = record {
  row = get-put_self ℕ_discrete u (bump mu) d.users;
  logged = rw (
      get-put_self ℕ_discrete u (updates_of d u ++ entry (inc mu.pts) UpdateType.new g now ∷ [])
        d.updates);
  ref =
      let lid = inc mu.last_message_id in
      rw (get-put_self ℕ_discrete u (put ℕ_discrete lid (new_ref mu g out) (refs_of d u)) d.refs)
        (get-put_self ℕ_discrete lid (new_ref mu g out) (refs_of d u));
}

module _ (from peer : Int64) (text : Str) (random_id media_file_id : Int64) (now : Time) (d : Db)
    (mf : MemUser) (found : user_of d from ≡ some mf) where
  -- The canonical message, and the database that has it and no ref to it.
  abbrev pub canonical : MemMessage
  canonical = new_message (inc d.msg_seq) from peer text random_id media_file_id now

  abbrev pub stored : Db
  stored = store_message from peer text random_id media_file_id now d

  abbrev pub sender_done : Db
  sender_done = copied from (inc d.msg_seq) true now mf stored

  abbrev pub sender_result : SentMessage
  sender_result = sent_copy from peer (inc d.msg_seq) (inc mf.last_message_id) (inc mf.pts) now

  message_of-stored : message_of stored (inc d.msg_seq) ≡ some canonical
  message_of-stored = get-put_self ℕ_discrete (inc d.msg_seq) canonical d.messages

  pub stored-IsValid : d.msg_seq + 1 < word → IsValid d → IsValid stored
  stored-IsValid room valid =
      Extends-IsValid d _ (inc d.msg_seq)
        (Extends-put_new d.messages d.msg_seq (inc d.msg_seq) canonical (omega arith)) (omega arith)
        valid

  pub sender_done-IsValid : HasRoom mf → d.msg_seq + 1 < word → IsValid d → IsValid sender_done
  sender_done-IsValid room seq valid =
      copied-IsValid from (inc d.msg_seq) true now mf stored found room.0 room.1 canonical
        message_of-stored refl (omega arith) (sym ((==_iff from from).1 refl)) (inl refl)
        (stored-IsValid seq valid)

  send_message-sender :
      send_message from peer text random_id media_file_id now d
      ≡ store_peer_copy sender_result peer now sender_done
  unfolding send_message
  send_message-sender = rw (store_copy-copied from (inc d.msg_seq) true now mf stored found)

  -- In a self-chat the sender's copy is the only one.
  pub send_message_self :
      from ≡ peer
      → send_message from peer text random_id media_file_id now d ≡ ok (sender_result, sender_done)
  unfolding store_peer_copy
  send_message_self same = rw (send_message-sender, (==_iff from peer).1 same)

  -- A recipient that is not there is a nil dereference, once the sender's copy is stored.
  pub send_message-no_peer :
      user_of d peer ≡ none
      → from ≢ peer
      → send_message from peer text random_id media_file_id now d ≡ panic
  unfolding store_peer_copy store_copy
  send_message-no_peer missing differ =
      let same = copied-SameElsewhere from (inc d.msg_seq) true now mf stored found in
      let gone : user_of sender_done peer ≡ none =
        same.users peer (λ e. differ (sym e)) ∙ missing in
      rw (send_message-sender, ==_false from peer differ) (rw (gone, allocate))

  module _ (mp : MemUser) (found' : user_of d peer ≡ some mp) (differ : from ≢ peer) where
    abbrev pub both_done : Db
    both_done = copied peer (inc d.msg_seq) false now mp sender_done

    abbrev pub both_result : SentMessage
    both_result = record sender_result {
      recipient_local_id = inc mp.last_message_id;
      recipient_pts = inc mp.pts;
    }

    sender-SameElsewhere : SameElsewhere from stored sender_done
    sender-SameElsewhere = copied-SameElsewhere from (inc d.msg_seq) true now mf stored found

    peer_found : user_of sender_done peer ≡ some mp
    peer_found = sender-SameElsewhere.users peer (λ e. differ (sym e)) ∙ found'

    peer-SameElsewhere : SameElsewhere peer sender_done both_done
    peer-SameElsewhere =
        copied-SameElsewhere peer (inc d.msg_seq) false now mp sender_done peer_found

    pub send_message-both :
        send_message from peer text random_id media_file_id now d ≡ ok (both_result, both_done)
    unfolding store_peer_copy
    send_message-both = rw (
      send_message-sender,
      ==_false from peer differ,
      store_copy-copied peer (inc d.msg_seq) false now mp sender_done peer_found,
    )

    pub both_done-IsValid :
        HasRoom mf → HasRoom mp → d.msg_seq + 1 < word → IsValid d → IsValid both_done
    both_done-IsValid room room' seq valid =
        copied-IsValid peer (inc d.msg_seq) false now mp sender_done peer_found room'.0 room'.1
          canonical message_of-stored refl (omega arith) (sym (==_false from peer differ))
          (inr refl) (sender_done-IsValid room seq valid)

    from_HasCopy : HasCopy from (inc d.msg_seq) true now mf d both_done
    from_HasCopy =
        let c = copied-HasCopy from (inc d.msg_seq) true now mf stored in
        record {
          row = peer-SameElsewhere.users from differ ∙ c.row;
          logged = peer-SameElsewhere.updates from differ ∙ c.logged;
          ref = rw (peer-SameElsewhere.refs from differ) c.ref;
        }

    peer_HasCopy : HasCopy peer (inc d.msg_seq) false now mp d both_done
    peer_HasCopy =
        let c = copied-HasCopy peer (inc d.msg_seq) false now mp sender_done in
        let back = λ (e : peer ≡ from). differ (sym e) in
        record {
          row = c.row;
          logged = rw (← sender-SameElsewhere.updates peer back) c.logged;
          ref = c.ref;
        }

-- A DM between two accounts that exist, whose counters have room, is sent: the call succeeds and
-- reports the allocated ids; each account gets its own copy, its next pts and one log entry; the
-- canonical message is stored; the database stays valid; and no third account changes.
pub send_message-delivers :
    (from peer : Int64) (text : Str) (random_id media_file_id : Int64) (now : Time) (d : Db)
    (mf mp : MemUser)
    → IsValid d
    → user_of d from ≡ some mf
    → user_of d peer ≡ some mp
    → from ≢ peer
    → HasRoom mf
    → HasRoom mp
    → d.msg_seq + 1 < word
    → (sent : SentMessage) × (d' : Db) × (send_message from peer text random_id media_file_id now d
        ≡ ok (sent, d'))
      × (sent.sender_pts ≡ mf.pts + 1)
      × (sent.recipient_pts ≡ mp.pts + 1)
      × (sent.sender_local_id ≡ mf.last_message_id + 1)
      × (sent.recipient_local_id ≡ mp.last_message_id + 1)
      × HasCopy from sent.global_id true now mf d d'
      × HasCopy peer sent.global_id false now mp d d'
      × (message_of d' sent.global_id
          ≡ some (new_message sent.global_id from peer text random_id media_file_id now))
      × IsValid d'
      × ((v : Int64)
          → v ≢ from
          → v ≢ peer
          → (user_of d' v ≡ user_of d v)
            × (refs_of d' v ≡ refs_of d v)
            × (updates_of d' v ≡ updates_of d v))
send_message-delivers from peer text rid fid now d mf mp valid ef ep differ room room' seq = (
  both_result from peer text rid fid now d mf ef mp ep differ,
  both_done from peer text rid fid now d mf ef mp ep differ,
  send_message-both from peer text rid fid now d mf ef mp ep differ,
  omega arith,
  omega arith,
  omega arith,
  omega arith,
  from_HasCopy from peer text rid fid now d mf ef mp ep differ,
  peer_HasCopy from peer text rid fid now d mf ef mp ep differ,
  message_of-stored from peer text rid fid now d mf ef,
  both_done-IsValid from peer text rid fid now d mf ef mp ep differ room room' seq valid,
  λ v nf np.
      let s = sender-SameElsewhere from peer text rid fid now d mf ef mp ep differ in
      let p = peer-SameElsewhere from peer text rid fid now d mf ef mp ep differ in
      (p.users v np ∙ s.users v nf, p.refs v np ∙ s.refs v nf, p.updates v np ∙ s.updates v nf),
)

-- A message between two accounts that are there is sent, whatever the counters; files are not touched.
pub send_message_runs :
    (from peer : Int64) (text : Str) (random_id media_file_id : Int64) (now : Time) (d : Db)
    (mf mp : MemUser)
    → user_of d from ≡ some mf
    → user_of d peer ≡ some mp
    → (sent : SentMessage) × (d' : Db) × (send_message from peer text random_id media_file_id now d
        ≡ ok (sent, d'))
      × (d'.files ≡ d.files)
send_message_runs from peer text rid fid now d mf mp ef ep = elim (ℕ_discrete from peer) [
  | yes same ↦ (
    sender_result from peer text rid fid now d mf ef,
    sender_done from peer text rid fid now d mf ef,
    send_message_self from peer text rid fid now d mf ef same,
    refl,
  )
  | no differ ↦ (
    both_result from peer text rid fid now d mf ef mp ep differ,
    both_done from peer text rid fid now d mf ef mp ep differ,
    send_message-both from peer text rid fid now d mf ef mp ep differ,
    refl,
  )
]

-- What the report says beside the ids.
pub send_message_dated :
    (from peer : Int64) (text : Str) (random_id media_file_id : Int64) (now : Time) (d d' : Db)
    (sent : SentMessage) (mf mp : MemUser)
    → user_of d from ≡ some mf
    → user_of d peer ≡ some mp
    → from ≢ peer
    → send_message from peer text random_id media_file_id now d ≡ ok (sent, d')
    → (sent.date ≡ now) × (sent.self_chat ≡ false)
send_message_dated from peer text rid fid now d d' sent mf mp ef ep differ e =
    let both = send_message-both from peer text rid fid now d mf ef mp ep differ in
    let same : sent ≡ both_result from peer text rid fid now d mf ef mp ep differ = cc in
    rw same (refl, ==_false from peer differ)

-- A message to oneself makes one copy, and the report has no recipient ids.
pub send_message-self_chat :
    (from : Int64) (text : Str) (random_id media_file_id : Int64) (now : Time) (d : Db)
    (mf : MemUser)
    → IsValid d
    → user_of d from ≡ some mf
    → HasRoom mf
    → d.msg_seq + 1 < word
    → (sent : SentMessage) × (d' : Db) × (send_message from from text random_id media_file_id now d
        ≡ ok (sent, d'))
      × (sent.sender_pts ≡ mf.pts + 1)
      × (sent.recipient_local_id ≡ int0)
      × (sent.self_chat ≡ true)
      × HasCopy from sent.global_id true now mf d d'
      × IsValid d'
      × ((v : Int64)
          → v ≢ from
          → (user_of d' v ≡ user_of d v)
            × (refs_of d' v ≡ refs_of d v)
            × (updates_of d' v ≡ updates_of d v))
send_message-self_chat from text rid fid now d mf valid ef room seq = (
  sender_result from from text rid fid now d mf ef,
  sender_done from from text rid fid now d mf ef,
  send_message_self from from text rid fid now d mf ef refl,
  omega arith,
  refl,
  (==_iff from from).1 refl,
  (let c =
        copied-HasCopy from (inc d.msg_seq) true now mf
          (stored from from text rid fid now d mf ef) in
      record { row = c.row; logged = c.logged; ref = c.ref }),
  sender_done-IsValid from from text rid fid now d mf ef room seq valid,
  λ v nf.
      let s =
        copied-SameElsewhere from (inc d.msg_seq) true now mf
          (stored from from text rid fid now d mf ef) ef in
      (s.users v nf, s.refs v nf, s.updates v nf),
)
