-- ===== src/Indexer/Kuru/Replay.antt =====
-- A trade that is delivered again while its order stands as it left it changes no order.
use mathlib.Core.Option.{some-injective}
use optara.Common.{
  ℕ, ◌≡◌, refl, sym, ap, ◌∙◌, subst, Option, none, some, arith, Bool-cases, Option-cases, inl, inr,
}
use optara.Indexer.Entities.{Key, Log, KuruOrder, OrderStatus, is_cancelled, key_eq}
use optara.Indexer.Store.{EntityStore, Context}
use optara.Indexer.Entities.Keys.{key_eq→eq, key_eq_self}
use optara.Indexer.Kuru.{order_key, status_after, traded, after_trade, put_order, order_traded}
use optara.Indexer.Kuru.Orders.{IsStored, IsBook}

abbrev IsLive : OrderStatus → Type 0
IsLive is_cancelled = ⊥
IsLive _ = Unit

status_after-IsLive : (remaining size : ℕ) → IsLive (status_after remaining size)
unfolding status_after
status_after-IsLive remaining size = ground arith

live_order_trades :
    (o : KuruOrder) (remaining : ℕ) (event : Log)
    → IsLive o.status
    → after_trade (some o) remaining event ≡ some (traded o remaining event)
unfolding after_trade
live_order_trades o remaining event =
    elim o.status
      as (λ st.
        IsLive st
        → (elim st as (λ _. Option KuruOrder) [
          | is_cancelled ↦ none
          | _ ↦ some (traded o remaining event)
        ])
          ≡ some (traded o remaining event)) [ is_cancelled ↦ λ h. absurd h | _ ↦ λ h. refl ]

written_by_trade :
    (o : Option KuruOrder) (remaining : ℕ) (event : Log) (o' : KuruOrder)
    → after_trade o remaining event ≡ some o'
    → (p : KuruOrder) × (o ≡ some p) × (traded p remaining event ≡ o')
unfolding after_trade
written_by_trade none remaining event o' h = cc h
written_by_trade (some p) remaining event o' h =
    (elim p.status
        as (λ st.
          (elim st as (λ _. Option KuruOrder) [
            | is_cancelled ↦ none
            | _ ↦ some (traded p remaining event)
          ])
            ≡ some o'
          → (q : KuruOrder) × (some p ≡ some q) × (traded q remaining event ≡ o')) [
            | is_cancelled ↦ λ g. cc g
            | _ ↦ λ g. (p, refl, some-injective _ _ g)
          ])
      h

-- What a trade leaves is left as it is by the same trade.
after_trade_twice :
    (o : Option KuruOrder) (remaining : ℕ) (event : Log) (o' : KuruOrder)
    → after_trade o remaining event ≡ some o'
    → after_trade (some o') remaining event ≡ some o'
unfolding traded
after_trade_twice o remaining event o' h =
    let (p, found, same) = written_by_trade o remaining event o' h in
    subst (λ q. after_trade (some q) remaining event ≡ some q) same
      (live_order_trades (traded p remaining event) remaining event
        (status_after-IsLive remaining p.size_units))

module _ (e : EntityStore) where
  -- To write an order that is stored already changes nothing.
  set_same :
      (c : Context e) (o : KuruOrder) (k : Key)
      → e.get c.kuru_orders o.id ≡ some o
      → e.get (e.set c.kuru_orders o.id o) k ≡ e.get c.kuru_orders k
  set_same c o k stands = e.get-set c.kuru_orders o.id o k ∙ elim (Bool-cases (key_eq o.id k)) [
    | inl hit ↦ rw hit (sym stands ∙ ap (e.get c.kuru_orders) (key_eq→eq o.id k hit))
    | inr miss ↦ rw miss refl
  ]

  order_traded-none :
      (order_id updated_size : ℕ) (event : Log) (c : Context e)
      → after_trade (e.get c.kuru_orders (order_key event.src_address order_id)) updated_size event
        ≡ none
      → order_traded e order_id updated_size event c ≡ c
  unfolding order_traded put_order
  order_traded-none order_id updated_size event c h = ap (λ o. put_order e o c) h

  order_traded-some :
      (order_id updated_size : ℕ) (event : Log) (c : Context e) (o : KuruOrder)
      → after_trade (e.get c.kuru_orders (order_key event.src_address order_id)) updated_size event
        ≡ some o
      → order_traded e order_id updated_size event c
        ≡ record c { kuru_orders = e.set c.kuru_orders o.id o }
  unfolding order_traded put_order
  order_traded-some order_id updated_size event c o h = ap (λ o. put_order e o c) h

  -- The order that a trade writes is stored at the trade's order id.
  traded-id :
      (j : Key) (updated_size : ℕ) (event : Log) (c : Context e) (o : KuruOrder)
      → IsBook e c
      → after_trade (e.get c.kuru_orders j) updated_size event ≡ some o
      → o.id ≡ j
  unfolding traded
  traded-id j updated_size event c o h written =
      let (p, found, same) =
        written_by_trade (e.get c.kuru_orders j) updated_size event o written in
      ap (λ q. q.id) (sym same) ∙ (subst (IsStored j) found (h j)).0

  -- The order that a trade leaves, which the same trade leaves as it is.
  traded-order :
      (order_id updated_size : ℕ) (event : Log) (c : Context e) (o : KuruOrder)
      → IsBook e c
      → after_trade (e.get c.kuru_orders (order_key event.src_address order_id)) updated_size event
        ≡ some o
      → e.get
          (order_traded e order_id updated_size event c).kuru_orders
          (order_key event.src_address order_id)
        ≡ some o
  traded-order order_id updated_size event c o h written =
      let j = order_key event.src_address order_id in
      ap (λ d. e.get d.kuru_orders j) (order_traded-some order_id updated_size event c o written)
      ∙ e.get-set c.kuru_orders o.id o j
      ∙ rw (traded-id j updated_size event c o h written, key_eq_self j) refl

  -- On a consistent index, a trade that is delivered a second time, while its order stands as the first
  -- delivery left it and whatever else has changed, leaves every stored order as it is.
  pub order_traded_again :
      (order_id updated_size : ℕ) (event : Log) (c d : Context e)
      → IsBook e c
      → e.get d.kuru_orders (order_key event.src_address order_id)
        ≡ e.get
            (order_traded e order_id updated_size event c).kuru_orders
            (order_key event.src_address order_id)
      → (k : Key)
      → e.get (order_traded e order_id updated_size event d).kuru_orders k ≡ e.get d.kuru_orders k
  order_traded_again order_id updated_size event c d h as_left k =
      let j = order_key event.src_address order_id in
      let again : Option KuruOrder → Option KuruOrder = λ o. after_trade o updated_size event in
      elim (Option-cases (again (e.get c.kuru_orders j))) [
        | inl nothing ↦
            let unchanged = order_traded-none order_id updated_size event c nothing in
            let same = as_left ∙ ap (λ x. e.get x.kuru_orders j) unchanged in
            ap (λ x. e.get x.kuru_orders k)
              (order_traded-none order_id updated_size event d (ap again same ∙ nothing))
        | inr (o, written) ↦
            let stands : e.get d.kuru_orders j ≡ some o =
              as_left ∙ traded-order order_id updated_size event c o h written in
            let second = order_traded-some order_id updated_size event d o (
              ap again stands
              ∙ after_trade_twice (e.get c.kuru_orders j) updated_size event o written) in
            ap (λ x. e.get x.kuru_orders k) second
            ∙ set_same d o k
                (ap (e.get d.kuru_orders) (traded-id j updated_size event c o h written) ∙ stands)
      ]
