-- ===== src/Rpc/Catching.antt =====
-- internal/rpc/updates.go, updatesGetDifference: what a client that comes back is told.
use teled.Prelude.{
  ◌≡◌, refl, sym, ap, ◌∙◌, List, [], ◌∷◌, ◌++◌, Option, some, none, Int64, int0, append-nil,
  append_assoc,
}
use teled.Types.{Time, User, Message, UpdateLogEntry, UpdateType, decode_deleted, decode_read}
use teled.Memory.State.{Db, KeyId, MemUser, user_of, updates_of}
use teled.Memory.Messages.{cut}
use teled.Memory.Updates.{get_difference}
use teled.Memory.Account.{IsValid, Chain}
use teled.Memory.Account.Difference.{get_difference-resumes}
use teled.Rpc.Reply.{Rpc, reply, ◌>>=◌, bind-replies}
use teled.Rpc.Caller.{caller_user, require_caller}
use teled.Rpc.Updates.{
  ask, OtherUpdate, update_edit_message, update_delete_messages, update_read_history_inbox,
  update_read_history_outbox, Collected, entry_message, add_new, add_edit, add_entry, add_entries,
  Difference, difference_empty, difference, difference_of, updates_get_difference, difference_limit,
}

abbrev or_nothing : {A : Type 0} → Option A → List A
or_nothing none = []
or_nothing (some a) = a ∷ []

-- The new message that an entry tells of, and the other update.
abbrev pub news : Int64 → Db → UpdateLogEntry → List Message
news self d e = elim e.type [ UpdateType.new ↦ or_nothing (entry_message self e d) | _ ↦ [] ]

abbrev edited_to : UpdateLogEntry → Option Message → List OtherUpdate
edited_to e none = []
edited_to e (some msg) = update_edit_message msg e.pts e.pts_count ∷ []

abbrev pub others : Int64 → Db → UpdateLogEntry → List OtherUpdate
others self d e = elim e.type [
  | UpdateType.new ↦ []
  | UpdateType.edit ↦ edited_to e (entry_message self e d)
  | UpdateType.delete ↦ update_delete_messages (decode_deleted e.extra) e.pts e.pts_count ∷ []
  | UpdateType.read_inbox ↦
      let (peer, max_id) = decode_read e.extra in
      update_read_history_inbox peer max_id e.pts e.pts_count ∷ []
  | UpdateType.read_outbox ↦
      let (peer, max_id) = decode_read e.extra in
      update_read_history_outbox peer max_id e.pts e.pts_count ∷ []
]

abbrev pub every : {A B : Type 0} → (A → List B) → List A → List B
every f [] = []
every f (x ∷ xs) = f x ++ every f xs

-- What one entry adds.
abbrev Adds : Int64 → Db → UpdateLogEntry → Collected → Collected → Type 0
Adds self d e c c' =
    (c'.new_messages ≡ c.new_messages ++ news self d e)
    × (c'.other_updates ≡ c.other_updates ++ others self d e)

add_new-adds :
    (o : Option Message) (c : Collected)
    → ((add_new o c).new_messages ≡ c.new_messages ++ or_nothing o)
      × ((add_new o c).other_updates ≡ c.other_updates ++ [])
unfolding add_new
add_new-adds none c = (sym (append-nil c.new_messages), sym (append-nil c.other_updates))
add_new-adds (some msg) c = (refl, sym (append-nil c.other_updates))

add_edit-adds :
    (e : UpdateLogEntry) (o : Option Message) (c : Collected)
    → ((add_edit e o c).new_messages ≡ c.new_messages ++ [])
      × ((add_edit e o c).other_updates ≡ c.other_updates ++ edited_to e o)
unfolding add_edit
add_edit-adds e none c = (sym (append-nil c.new_messages), sym (append-nil c.other_updates))
add_edit-adds e (some msg) c = (sym (append-nil c.new_messages), refl)

add_entry-Adds :
    (self : Int64) (d : Db) (t : UpdateType) (e : UpdateLogEntry) (c : Collected)
    → e.type ≡ t
    → Adds self d e c (add_entry self d e c)
unfolding add_entry
add_entry-Adds self d UpdateType.new e c p =
    rw (p, add_entry) (add_new-adds (entry_message self e d) c)
add_entry-Adds self d UpdateType.edit e c p =
    rw (p, add_entry) (add_edit-adds e (entry_message self e d) c)
add_entry-Adds self d UpdateType.delete e c p =
    rw (p, add_entry) (sym (append-nil c.new_messages), refl)
add_entry-Adds self d UpdateType.read_inbox e c p =
    rw (p, add_entry) (sym (append-nil c.new_messages), refl)
add_entry-Adds self d UpdateType.read_outbox e c p =
    rw (p, add_entry) (sym (append-nil c.new_messages), refl)

append-every :
    {A B : Type 0} (f : A → List B) (x : A) (xs : List A) (before here after : List B)
    → here ≡ before ++ f x
    → after ≡ here ++ every f xs
    → after ≡ before ++ every f (x ∷ xs)
append-every f x xs before here after p q =
    q ∙ ap (λ l. l ++ every f xs) p ∙ append_assoc before (f x) (every f xs)

add_entries-every :
    (self : Int64) (d : Db) (es : List UpdateLogEntry) (c : Collected)
    → ((add_entries self d es c).new_messages ≡ c.new_messages ++ every (news self d) es)
      × ((add_entries self d es c).other_updates ≡ c.other_updates ++ every (others self d) es)
unfolding add_entries
add_entries-every self d [] c = (sym (append-nil c.new_messages), sym (append-nil c.other_updates))
add_entries-every self d (e ∷ es) c =
    let c' = add_entry self d e c in
    let first = add_entry-Adds self d e.type e c refl in
    let rest = add_entries-every self d es c' in
    (
      append-every (news self d) e es c.new_messages c'.new_messages _ first.0 rest.0,
      append-every (others self d) e es c.other_updates c'.other_updates _ first.1 rest.1,
    )

-- What an answer says of the entries es and of the current pts.
abbrev pub Tells : Int64 → Db → Int64 → List UpdateLogEntry → Difference → Type 0
Tells self d pts es difference_empty = es ≡ []
Tells self d pts es (difference messages updates users current) =
    (messages ≡ every (news self d) es) × (updates ≡ every (others self d) es) × (current ≡ pts)

difference_of-Tells :
    (self pts : Int64) (d : Db) (es : List UpdateLogEntry)
    → Tells self d pts es (difference_of self es pts d)
unfolding difference_of
difference_of-Tells self pts d [] = refl
difference_of-Tells self pts d (e ∷ es) =
    let r = add_entries-every self d (e ∷ es) _ in (r.0, r.1, refl)

abbrev answer_of : Int64 → List UpdateLogEntry × Int64 → Rpc Difference
answer_of self (entries, current_pts) d = (reply (difference_of self entries current_pts d), d)

-- In a valid database, a logged-in client that has applied its log up to pts, the first part pre,
-- is answered, without any change of the storage. The answer is empty only if nothing is left for
-- it. Otherwise its messages are those of the sends among the first 1000 of the remaining entries
-- whose message is stored and has a ref of the client, also one that was deleted since, in order;
-- its other updates are one for each edit of a message with such a ref, for each deletion and for
-- each read mark among them, in order; and its pts is the account's, however many entries remain.
pub updates_get_difference-Tells :
    (key_id : KeyId) (pts : Int64) (now : Time) (d : Db) (u : User) (mu : MemUser)
    (pre post : List UpdateLogEntry)
    → IsValid d
    → caller_user (some key_id) now d ≡ some u
    → user_of d u.id ≡ some mu
    → updates_of d u.id ≡ pre ++ post
    → Chain int0 pre pts
    → (answer : Difference) × (updates_get_difference (some key_id) pts now d ≡ (reply answer, d))
      × Tells u.id d mu.pts (cut difference_limit post) answer
unfolding updates_get_difference require_caller
updates_get_difference-Tells key_id pts now d u mu pre post valid who found split c =
    let es = cut difference_limit post in
    let r = get_difference-resumes u.id pts difference_limit d mu pre post valid found split c in
    (
      difference_of u.id es mu.pts d,
      bind-replies (require_caller (some key_id) now)
            (λ caller. ask (get_difference caller.id pts difference_limit) >>= answer_of caller.id)
            d d u (rw (who, require_caller) refl)
          ∙ bind-replies (ask (get_difference u.id pts difference_limit)) (answer_of u.id) d d
              (es, mu.pts) (rw (r.0, ask) refl),
      difference_of-Tells u.id mu.pts d es,
    )
