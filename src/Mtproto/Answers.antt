-- ===== src/Mtproto/Answers.antt =====
-- internal/mtproto/handle.go: a container of messages, nested or not, is served as its messages are one by one.
use teled.Prelude.{◌≡◌, refl, sym, ap, ◌∙◌, List, [], ◌∷◌, ◌++◌, append-nil, append_assoc, Int64}
use teled.Mtproto.Sending.{Session, Mt, Link, MtError}
use teled.Mtproto.Handling.{
  Body, untyped, undecodable, ping, ping_delay_disconnect, get_future_salts, rpc_drop_answer, gzip,
  container, rpc, Bodies, nothing, entry, Request, Served, handle, handle_each,
}

-- The messages that are no containers, with their ids, in their order.
unfoldable mutual
  pub leaves : Int64 → Body → List (Int64 × Body)
  leaves msg_id (container messages) = leaves_each messages
  leaves msg_id untyped = (msg_id, untyped) ∷ []
  leaves msg_id undecodable = (msg_id, undecodable) ∷ []
  leaves msg_id (ping n) = (msg_id, ping n) ∷ []
  leaves msg_id (ping_delay_disconnect n) = (msg_id, ping_delay_disconnect n) ∷ []
  leaves msg_id get_future_salts = (msg_id, get_future_salts) ∷ []
  leaves msg_id rpc_drop_answer = (msg_id, rpc_drop_answer) ∷ []
  leaves msg_id (gzip bytes) = (msg_id, gzip bytes) ∷ []
  leaves msg_id (rpc bytes) = (msg_id, rpc bytes) ∷ []

  pub leaves_each : Bodies → List (Int64 × Body)
  leaves_each nothing = []
  leaves_each (entry msg_id body rest) = leaves msg_id body ++ leaves_each rest

module _ {S A : Type 0} (link : Link) (on_message : Request → Mt S A → Served × Mt S A) where
  -- One message after the other, each on the state that the one before leaves, with the errors of all.
  abbrev pub in_order : Session → List (Int64 × Body) → Mt S A → List MtError × Mt S A
  in_order k [] st = ([], st)
  in_order k ((msg_id, body) ∷ rest) st =
      let (e, st₁) = handle link on_message k msg_id body st in
      let (es, st₂) = in_order k rest st₁ in (e ++ es, st₂)

  in_order-append :
      (k : Session) (xs ys : List (Int64 × Body)) (st : Mt S A)
      → let (e, st₁) = in_order k xs st in
        let (es, st₂) = in_order k ys st₁ in in_order k (xs ++ ys) st ≡ (e ++ es, st₂)
  in_order-append k [] ys st = refl
  in_order-append k ((msg_id, body) ∷ rest) ys st =
      let (e, st₁) = handle link on_message k msg_id body st in
      let (es, st₂) = in_order k rest st₁ in
      ap (λ x. (e ++ x.0, x.1)) (in_order-append k rest ys st₁)
      ∙ ap (λ l. (l, (in_order k ys st₂).1)) (sym (append_assoc e es _))

  in_order-single :
      (k : Session) (msg_id : Int64) (body : Body) (st : Mt S A)
      → handle link on_message k msg_id body st ≡ in_order k ((msg_id, body) ∷ []) st
  in_order-single k msg_id body st =
      let (e, st₁) = handle link on_message k msg_id body st in
      ap (λ l. (l, st₁)) (sym (append-nil e))

  mutual
    unfolding handle leaves

    handle-leaves :
        (k : Session) (msg_id : Int64) (body : Body) (st : Mt S A)
        → handle link on_message k msg_id body st ≡ in_order k (leaves msg_id body) st
    handle-leaves k msg_id (container messages) st = handle_each-leaves k messages st
    handle-leaves k msg_id untyped st = in_order-single k msg_id untyped st
    handle-leaves k msg_id undecodable st = in_order-single k msg_id undecodable st
    handle-leaves k msg_id (ping n) st = in_order-single k msg_id (ping n) st
    handle-leaves k msg_id (ping_delay_disconnect n) st =
        in_order-single k msg_id (ping_delay_disconnect n) st
    handle-leaves k msg_id get_future_salts st = in_order-single k msg_id get_future_salts st
    handle-leaves k msg_id rpc_drop_answer st = in_order-single k msg_id rpc_drop_answer st
    handle-leaves k msg_id (gzip bytes) st = in_order-single k msg_id (gzip bytes) st
    handle-leaves k msg_id (rpc bytes) st = in_order-single k msg_id (rpc bytes) st

    handle_each-leaves :
        (k : Session) (messages : Bodies) (st : Mt S A)
        → handle_each link on_message k messages st ≡ in_order k (leaves_each messages) st
    handle_each-leaves k nothing st = refl
    handle_each-leaves k (entry msg_id body rest) st =
        let (e, st₁) = in_order k (leaves msg_id body) st in
        ap (λ x. let (es, st₂) = handle_each link on_message k rest x.1 in (x.0 ++ es, st₂))
          (handle-leaves k msg_id body st)
        ∙ ap (λ x. (e ++ x.0, x.1)) (handle_each-leaves k rest st₁)
        ∙ sym (in_order-append k (leaves msg_id body) (leaves_each rest) st)

  -- However deep its containers are nested, a message is served as the messages in it that are no containers are one
  -- by one, in their order: each under its own id, on what the one before has left, and also after one that fails;
  -- the errors are those of all of them.
  pub handle-in_order :
      (k : Session) (msg_id : Int64) (body : Body) (st : Mt S A)
      → handle link on_message k msg_id body st ≡ in_order k (leaves msg_id body) st
  handle-in_order k msg_id body st = handle-leaves k msg_id body st
