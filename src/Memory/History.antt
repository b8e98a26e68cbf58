-- ===== src/Memory/History.antt =====
-- memory/db.go, SearchMessages, and which messages GetHistory returns in which order.
-- strings.ToLower and strings.TrimSpace are parameters of the search.
use mathlib.Core.List.{Mem, mem-cons_self, mem-cons_of_mem, not-mem-nil, eq-or-mem_of_mem-cons}
use mathlib.Core.List.Perm
use mathlib.Core.Logic.Or
use mathlib.Core.Logic.{∥∥₁_prop}
use teled.Prelude.{
  ℕ, zero, suc, ◌<◌, ◌≤◌, ◌≡◌, inl, inr, refl, sym, ap, subst, ==_iff, dec_lt, List, [], ◌∷◌, some,
  true, false, ◌&&◌, ◌||◌, arith, Str, str_eq, contains, Int64, int0, int, index, length, take,
  sort, sort-perm, sort-Ordered, All-sort, Ordered, All, All-map, values, ltb, leb, ◌==◌, Bool,
  if_cases, if◌then◌else◌, Option-cases,
}
use teled.Types.{Message}
use teled.Memory.State.{Db, MemMessage, MemRef, message_of, refs_of}
use teled.Memory.Messages.{
  other, message, collect, newer, in_conversation, cut, history_wanted, get_history,
}

module _ (to_lower trim_space : Str → Str) where
  -- The loop's test in SearchMessages.
  abbrev pub search_wanted : Int64 → Int64 → Str → MemRef → MemMessage → Bool
  search_wanted self peer q r m = in_conversation self peer m && contains (to_lower m.text) q

  unfoldable pub search_messages : Int64 → Int64 → Str → Int64 → Db → List Message
  search_messages self peer query limit d =
      let q = to_lower (trim_space query) in
      let n = if leb limit int0 || ltb (int 100) limit then int 100 else limit in
      let msgs =
        sort newer (collect self (search_wanted self peer q) (values (refs_of d self)) d) in
      if str_eq q [] then [] else (if ltb n (int (length msgs)) then take (index n) msgs else msgs)

-- The message is the caller's view of one of the refs, whose canonical message meets the condition.
abbrev pub IsView : Int64 → (MemRef → MemMessage → Type 0) → List MemRef → Db → Message → Type 0
IsView self Shown rs d msg =
    (r : MemRef) × (m : MemMessage) × Mem r rs
    × (message_of d r.global_id ≡ some m)
    × Shown r m
    × (msg ≡ message self r m d)

collect-IsView :
    (self : Int64) (wanted : MemRef → MemMessage → Bool) (whole rs : List MemRef) (d : Db)
    → All (λ r. Mem r whole) rs
    → All (IsView self (λ r m. wanted r m ≡ true) whole d) (collect self wanted rs d)
unfolding collect
collect-IsView self wanted whole [] d h = tt
collect-IsView self wanted whole (r ∷ rs) d h =
    let ih = collect-IsView self wanted whole rs d h.1 in
    elim (Option-cases (message_of d r.global_id)) [
      | inl e ↦ rw (e, collect) ih
      | inr (m, e) ↦
          rw (e, collect)
            (if_cases (All (IsView self (λ r m. wanted r m ≡ true) whole d)) (wanted r m) _ _
              (λ w. ((r, m, h.0, e, w, refl), ih)) (λ w. ih))
    ]

collect-head :
    (self : Int64) (wanted : MemRef → MemMessage → Bool) (rs : List MemRef) (d : Db) (r : MemRef)
    (m : MemMessage)
    → message_of d r.global_id ≡ some m
    → wanted r m ≡ true
    → Mem (message self r m d) (collect self wanted (r ∷ rs) d)
unfolding collect
collect-head self wanted rs d r m stored want = rw (stored, collect) (rw want mem-cons_self)

collect-complete :
    (self : Int64) (wanted : MemRef → MemMessage → Bool) (rs : List MemRef) (d : Db) (r : MemRef)
    (m : MemMessage)
    → message_of d r.global_id ≡ some m
    → wanted r m ≡ true
    → Mem r rs
    → Mem (message self r m d) (collect self wanted rs d)
unfolding collect
collect-complete self wanted [] d r m stored want h = absurd (not-mem-nil h)
collect-complete self wanted (s ∷ rs) d r m stored want h =
    let later = collect-complete self wanted rs d r m stored want in
    Or.elim ∥∥₁_prop (eq-or-mem_of_mem-cons h)
      (λ here.
        subst (λ x. Mem (message self r m d) (collect self wanted (x ∷ rs) d)) here
          (collect-head self wanted rs d r m stored want))
      (λ there. elim (Option-cases (message_of d s.global_id)) [
        | inl e ↦ rw (e, collect) (later there)
        | inr (n, e) ↦
            rw (e, collect)
              (if_cases (Mem (message self r m d)) (wanted s n) _ _
                (λ w. mem-cons_of_mem _ (later there)) (λ w. later there))
      ])

every-Mem {ℓ} : {A : Type ℓ} (xs : List A) → All (λ x. Mem x xs) xs
every-Mem [] = tt
every-Mem (x ∷ xs) = (mem-cons_self, All-map _ _ (λ y h. mem-cons_of_mem x h) xs (every-Mem xs))

abbrev pub NewestFirst : List Message → Type 0
NewestFirst = Ordered (λ (a b : Message). b.local_id ≤ a.local_id)

sorted : (msgs : List Message) → NewestFirst (sort newer msgs)
sorted msgs =
    sort-Ordered newer (λ a b h. ground arith) (λ a b h. ground arith) (λ a b c h k. omega arith)
      msgs

module _ {A : Type 0} (limit : Int64) where
  cut_cases :
      (P : List A → Type 0) (xs : List A)
      → (int0 < limit → P (take (index limit) xs))
      → ((int0 < limit → length xs ≤ index limit) → P xs)
      → P (cut limit xs)
  cut_cases P xs f g =
      if_cases P (ltb int0 limit && ltb limit (int (length xs))) _ _ (λ e. f (ground arith))
        (λ e. g (λ h. ground arith))

-- What GetHistory shows: a message that is not deleted, of the conversation with peer, below a positive
-- offset.
pub record IsShown (self peer offset_id : Int64) (r : MemRef) (m : MemMessage) : Type 0 where
  pub live : m.deleted ≡ false
  pub between : other self m ≡ peer
  pub below : int0 < offset_id → r.local_id < offset_id

shown→wanted :
    (self peer offset : Int64) (r : MemRef) (m : MemMessage)
    → IsShown self peer offset r m
    → history_wanted self peer offset r m ≡ true
shown→wanted self peer offset r m s =
    let same : (other self m == peer) ≡ true = (==_iff _ _).1 s.between in
    (elim (dec_lt int0 offset) [
      | yes h ↦ let low = s.below h in ground (arith, s.live, same)
      | no h ↦ ground (arith, s.live, same)
    ])

wanted→shown :
    (self peer offset : Int64) (r : MemRef) (m : MemMessage)
    → history_wanted self peer offset r m ≡ true
    → IsShown self peer offset r m
wanted→shown self peer offset r m e = record {
  live = ground arith;
  between = (==_iff _ _).0 (ground arith);
  below = λ h. ground arith;
}

take_all {ℓ} : {A : Type ℓ} (n : ℕ) (xs : List A) → length xs ≤ n → take n xs ≡ xs
take_all zero [] h = refl
take_all zero (x ∷ xs) h = absurd (omega arith)
take_all (suc n) [] h = refl
take_all (suc n) (x ∷ xs) h = ap (λ l. x ∷ l) (take_all n xs (omega arith))

-- The history without a limit returns, newest first, the views of all refs of the caller whose messages
-- are not deleted, belong to the conversation with peer and, for a positive offset, lie below it, and of
-- no others. With a positive limit GetHistory returns the first limit messages of that history, and all of it with
-- any other limit.
pub get_history_lem :
    (self peer offset_id limit : Int64) (d : Db)
    → let whole = get_history self peer offset_id int0 d in
      NewestFirst whole
      × All (IsView self (IsShown self peer offset_id) (values (refs_of d self)) d) whole
      × ((r : MemRef) (m : MemMessage)
          → Mem r (values (refs_of d self))
          → message_of d r.global_id ≡ some m
          → IsShown self peer offset_id r m
          → Mem (message self r m d) whole)
      × (int0 < limit → get_history self peer offset_id limit d ≡ take (index limit) whole)
      × (limit ≤ int0 → get_history self peer offset_id limit d ≡ whole)
unfolding get_history
get_history_lem self peer offset limit d =
    let wanted = history_wanted self peer offset in
    let rs = values (refs_of d self) in
    let msgs = collect self wanted rs d in
    (
      sorted msgs,
      All-sort newer (IsView self (IsShown self peer offset) rs d) msgs (
          All-map _ _
            (λ msg v. (v.0, v.1, v.2, v.3, wanted→shown self peer offset v.0 v.1 v.4, v.5)) msgs
            (collect-IsView self wanted rs rs d (every-Mem rs))),
      λ r m at stored s.
          (Perm.mem_iff (sort-perm newer msgs)).1
            (collect-complete self wanted rs d r m stored (shown→wanted self peer offset r m s) at),
      λ pos.
          cut_cases limit (λ xs. xs ≡ take (index limit) (sort newer msgs)) (sort newer msgs)
            (λ h. refl) (λ h. sym (take_all (index limit) (sort newer msgs) (h pos))),
      λ low.
          cut_cases limit (λ xs. xs ≡ sort newer msgs) (sort newer msgs) (λ h. absurd (omega arith))
            (λ h. refl),
    )
