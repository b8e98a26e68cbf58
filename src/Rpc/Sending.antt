-- ===== src/Rpc/Sending.antt =====
-- internal/rpc/messages.go, messagesSendMessage, from the request to the recipient's sessions.
use teled.Prelude.{
  sym, ==_iff, [], ◌∷◌, int, Bool, ◌+◌, ◌<◌, ◌≡◌, ◌≢◌, refl, ap, ◌∙◌, arith, ◌++◌, map, some, none,
  true, false, Str, Int64, int0, word, keep, inc, ==_false, ◌==◌, if◌then◌else◌,
}
use teled.Types.{Time, unix, User, Message, SentMessage, bot_father_id, ok}
use teled.Memory.State.{Db, MemUser, MemMessage, user_of, message_of}
use teled.Memory.Messages.{message, other, new_message, send_message}
use teled.Memory.Account.{IsValid}
use teled.Memory.Account.Copy.{new_ref}
use teled.Memory.Account.Send.{HasRoom, HasCopy, send_message-delivers, send_message_dated}
use teled.Rpc.Reply.{reply, ◌>>=◌, ◌>>◌, save, look, return}
use teled.Rpc.Caller.{InputPeer, caller_user, resolve_peer_user}
use teled.Rpc.Registry.{live}
use teled.Rpc.Server.Calls.{bind-caller_of, bind-call, bind-peer_of}
use teled.Rpc.Pushing.{push_lem}
use teled.Rpc.Server.{Update, message_id, Updates, seen_by, Context, Server, peer_of, push}
use teled.Rpc.Messages.{
  wire_message, arrival, departure, deliver, handle_bot_father, send_to, messages_send_message,
}

-- What the wire carries of the view that account u, whose row was mu, has of its new copy of a message, and the
-- update that tells of the copy with the account's next pts.
abbrev pub wire : Message → Message
wire m =
    wire_message m.local_id m.from_user_id m.peer_user_id m.out m.text m.date m.edit_date m.media

abbrev pub copy_view : Int64 → MemUser → Bool → MemMessage → Db → Message
copy_view u mu out m d = wire (message u (new_ref mu m.global_id out) m d)

abbrev pub news : Int64 → MemUser → Bool → MemMessage → Db → Update
news u mu out m d = Update.new_message (copy_view u mu out m d) (mu.pts + 1) (int 1)

-- What the caller is answered, and what the other account's sessions are told.
abbrev pub told_caller : Context → User → User → MemUser → MemMessage → Server → Updates
told_caller c caller to mf m h = record {
  updates = message_id (mf.last_message_id + 1) m.random_id ∷ news caller.id mf true m h.db ∷ [];
  users = seen_by c h caller true ∷ seen_by c h to false ∷ [];
  date = unix c.now;
}

abbrev pub told_peer : Context → User → User → MemUser → MemMessage → Server → Db → Updates
told_peer c caller to mp m h d = record {
  updates = news to.id mp false m d ∷ [];
  users = seen_by c h caller false ∷ seen_by c h to true ∷ [];
  date = unix c.now;
}

send_to_lem :
    (c : Context) (caller to : User) (text : Str) (random_id : Int64) (h : Server)
    (sent : SentMessage) (d : Db)
    → to.id ≢ bot_father_id
    → send_message caller.id to.id text random_id int0 c.now h.db ≡ ok (sent, d)
    → let h' = deliver c caller to sent text none (record h { db = d }) in
      send_to c caller to text random_id h
      ≡ (reply (departure c caller to sent text random_id none h'), h')
unfolding send_to
send_to_lem c caller to text random_id h sent d human e =
    bind-call (send_message caller.id to.id text random_id int0 c.now)
      (λ s.
        save (deliver c caller to s text none)
        >> ((if to.id == bot_father_id then handle_bot_father c caller to text else return tt)
            >> look (departure c caller to s text random_id none)))
      h d sent e
    ∙ rw (==_false to.id bot_father_id human) refl

copy_view-sender :
    (from to : Int64) (g : Int64) (text : Str) (rid : Int64) (now : Time) (mf : MemUser) (d : Db)
    → mf.last_message_id + 1 < word
    → copy_view from mf true (new_message g from to text rid int0 now) d
      ≡ wire_message (mf.last_message_id + 1) from to true text now 0 none
unfolding message other
copy_view-sender from to g text rid now mf d room =
    let next : inc mf.last_message_id ≡ mf.last_message_id + 1 = omega arith in
    rw (message, other, (==_iff from from).1 refl, next) refl

copy_view-recipient :
    (from to : Int64) (g : Int64) (text : Str) (rid : Int64) (now : Time) (mp : MemUser) (d : Db)
    → from ≢ to
    → mp.last_message_id + 1 < word
    → copy_view to mp false (new_message g from to text rid int0 now) d
      ≡ wire_message (mp.last_message_id + 1) from from false text now 0 none
unfolding message other
copy_view-recipient from to g text rid now mp d differ room =
    let next : inc mp.last_message_id ≡ mp.last_message_id + 1 = omega arith in
    rw (message, other, ==_false from to differ, next) refl

departure-told_caller :
    (c : Context) (caller to : User) (sent : SentMessage) (text : Str) (rid : Int64) (mf : MemUser)
    (h : Server)
    → mf.last_message_id + 1 < word
    → sent.sender_local_id ≡ mf.last_message_id + 1
    → sent.sender_pts ≡ mf.pts + 1
    → sent.date ≡ c.now
    → departure c caller to sent text rid none h
      ≡ told_caller c caller to mf
          (new_message sent.global_id caller.id to.id text rid int0 c.now)
          h
departure-told_caller c caller to sent text rid mf h room id pts date =
    let tell : Message → Updates = λ w. record {
      updates =
          message_id (mf.last_message_id + 1) rid ∷ Update.new_message w (mf.pts + 1) (int 1) ∷ [];
      users = seen_by c h caller true ∷ seen_by c h to false ∷ [];
      date = unix c.now;
    } in
    rw (id, pts, date)
      (ap tell (sym (copy_view-sender caller.id to.id sent.global_id text rid c.now mf h.db room)))

arrival-told_peer :
    (c : Context) (caller to : User) (sent : SentMessage) (text : Str) (rid : Int64) (mp : MemUser)
    (h : Server) (d : Db)
    → caller.id ≢ to.id
    → mp.last_message_id + 1 < word
    → sent.recipient_local_id ≡ mp.last_message_id + 1
    → sent.recipient_pts ≡ mp.pts + 1
    → sent.date ≡ c.now
    → arrival c caller to sent text none h
      ≡ told_peer c caller to mp
          (new_message sent.global_id caller.id to.id text rid int0 c.now)
          h
          d
arrival-told_peer c caller to sent text rid mp h d differ room id pts date =
    let tell : Message → Updates = λ w. record {
      updates = Update.new_message w (mp.pts + 1) (int 1) ∷ [];
      users = seen_by c h caller false ∷ seen_by c h to true ∷ [];
      date = unix c.now;
    } in
    rw (id, pts, date)
      (ap tell
        (sym (copy_view-recipient caller.id to.id sent.global_id text rid c.now mp d differ room)))

-- A logged-in caller sends a text to another account that is not BotFather, where the counters of both have
-- room. The call succeeds. The caller is answered its next id, its next pts and the message as its history then
-- shows it. Each live session of the recipient that can be reached is pushed the message as the recipient's
-- history then shows it, with the recipient's next pts, and no other session is pushed anything. The database
-- stays valid and stores the message, and each account has one copy and one log entry more.
pub messages_send_message-delivers :
    (c : Context) (peer : InputPeer) (text : Str) (random_id : Int64) (h : Server)
    (caller to : User) (mf mp : MemUser)
    → caller_user c.key c.now h.db ≡ some caller
    → resolve_peer_user caller peer h.db ≡ (reply to, h.db)
    → IsValid h.db
    → user_of h.db caller.id ≡ some mf
    → user_of h.db to.id ≡ some mp
    → caller.id ≢ to.id
    → to.id ≢ bot_father_id
    → HasRoom mf
    → HasRoom mp
    → h.db.msg_seq + 1 < word
    → (m : MemMessage) × (h' : Server) × (m
        ≡ new_message m.global_id caller.id to.id text random_id int0 c.now)
      × (messages_send_message c peer text random_id h
          ≡ (reply (told_caller c caller to mf m h'), h'))
      × (h'.pushed
          ≡ h.pushed
            ++ map
                (λ s. (s, told_peer c caller to mp m h h'.db))
                (keep c.reaches (live to.id h.sessions)))
      × (message_of h'.db m.global_id ≡ some m)
      × HasCopy caller.id m.global_id true c.now mf h.db h'.db
      × HasCopy to.id m.global_id false c.now mp h.db h'.db
      × IsValid h'.db
unfolding messages_send_message deliver
messages_send_message-delivers c peer text rid h caller to mf mp me them valid ef ep differ human
      room room' seq =
    let (sent, d, e, spts, rpts, sid, rid', from_copy, to_copy, stored, valid', others) =
      send_message-delivers caller.id to.id text rid int0 c.now h.db mf mp valid ef ep differ room
        room' seq in
    let dated =
      send_message_dated caller.id to.id text rid int0 c.now h.db d sent mf mp ef ep differ e in
    let h₁ : Server = record h { db = d } in
    let wrap = arrival c caller to sent text none h₁ in
    let h' = push c to.id wrap h₁ in
    let p = push_lem c to.id wrap h₁ int0 int0 in
    let quiet : deliver c caller to sent text none h₁ ≡ h' = rw (dated.1, deliver) refl in
    (
      new_message sent.global_id caller.id to.id text rid int0 c.now,
      h',
      refl,
      bind-caller_of c (λ u. peer_of u peer >>= λ v. send_to c u v text rid) h caller me
          ∙ bind-peer_of caller to peer (λ v. send_to c caller v text rid) h them
          ∙ send_to_lem c caller to text rid h sent d human e
          ∙ ap (λ x. (reply (departure c caller to sent text rid none x), x)) quiet
          ∙ ap (λ x. (reply x, h'))
              (departure-told_caller c caller to sent text rid mf h' room.0 sid spts dated.0),
      p.0
          ∙ ap (λ w. h.pushed ++ map (λ s. (s, w)) (keep c.reaches (live to.id h.sessions)))
              (arrival-told_peer c caller to sent text rid mp h h'.db differ room'.0 rid' rpts
                dated.0),
      rw p.3 stored,
      rw p.3 from_copy,
      rw p.3 to_copy,
      rw p.3 valid',
    )
