-- ===== src/Indexer/Kuru/Orders.antt =====
-- The maker orders stay consistent over any history of an order book's events.
use optara.Common.{
  ℕ, ◌+◌, ◌≤◌, ◌<◌, ◌≡◌, refl, sym, ◌∙◌, subst, Option, none, some, List, [], ◌∷◌, ◌==◌, arith,
  Bool-cases, inl, inr,
}
use optara.Indexer.Entities.{
  Key, Log, Market, KuruOrder, OrderStatus, is_open, is_partial, is_filled, is_cancelled, key_eq,
}
use optara.Indexer.Store.{EntityStore, Context}
use optara.Indexer.Entities.Keys.{key_eq→eq}
use optara.Indexer.Kuru.{
  OrderCreated, order_key, new_order, status_after, traded, cancelled, after_trade, after_cancel,
  put_order, order_for, order_created, order_traded, orders_canceled,
}

-- What each status says of the three sizes.
abbrev pub Sizes : OrderStatus → (size remaining filled : ℕ) → Type 0
Sizes is_open size remaining filled = (filled ≡ 0) × (size ≤ remaining)
Sizes is_partial size remaining filled =
    (0 < remaining) × (0 < filled) × (filled + remaining ≡ size)
Sizes is_filled size remaining filled = (remaining ≡ 0) × (filled ≡ size)
Sizes is_cancelled size remaining filled = (remaining ≡ 0) × (filled ≤ size)

abbrev pub IsSized : KuruOrder → Type 0
IsSized o = Sizes o.status o.size_units o.remaining_units o.filled_units

filled_le :
    (st : OrderStatus) (size remaining filled : ℕ) → Sizes st size remaining filled → filled ≤ size
filled_le is_open size remaining filled h = omega arith
filled_le is_partial size remaining filled h = omega arith
filled_le is_filled size remaining filled h = omega arith
filled_le is_cancelled size remaining filled h = h.1

traded-IsSized : (o : KuruOrder) (remaining : ℕ) (event : Log) → IsSized (traded o remaining event)
unfolding traded status_after
traded-IsSized o remaining event = ground arith

cancelled-IsSized : (o : KuruOrder) (event : Log) → IsSized o → IsSized (cancelled o event)
unfolding cancelled
cancelled-IsSized o event h =
    (refl, filled_le o.status o.size_units o.remaining_units o.filled_units h)

-- A stored order bears the id that it is stored under, and its sizes are those of its status.
abbrev pub IsStored : Key → Option KuruOrder → Type 0
IsStored k none = Unit
IsStored k (some o) = (o.id ≡ k) × IsSized o

abbrev AreSized : Option KuruOrder → Type 0
AreSized none = Unit
AreSized (some o) = IsSized o

after_trade-sized :
    (k : Key) (o : Option KuruOrder) (remaining : ℕ) (event : Log)
    → AreSized (after_trade o remaining event)
unfolding after_trade
after_trade-sized k none remaining event = tt
after_trade-sized k (some o) remaining event =
    elim o.status
      as (λ st. AreSized (elim st as (λ _. Option KuruOrder) [
        | is_cancelled ↦ none
        | _ ↦ some (traded o remaining event)
      ])) [ is_cancelled ↦ tt | _ ↦ traded-IsSized o remaining event ]

after_cancel-sized :
    (k : Key) (o : Option KuruOrder) (event : Log) → IsStored k o → AreSized (after_cancel o event)
unfolding after_cancel
after_cancel-sized k none event h = tt
after_cancel-sized k (some o) event h =
    elim o.status
      as (λ st.
        AreSized (elim st as (λ _. Option KuruOrder) [
          | is_filled ↦ none
          | _ ↦ some (cancelled o event)
        ])) [ is_filled ↦ tt | _ ↦ cancelled-IsSized o event h.1 ]

order_for-sized :
    (p : OrderCreated) (event : Log) (ms : List Market) → AreSized (order_for p event ms)
unfolding order_for new_order
order_for-sized p event [] = tt
order_for-sized p event (m ∷ _) = (refl, omega arith)

-- An event of an order book.
pub data BookEvent : Type 0 where
  creates : OrderCreated → BookEvent
  trades : (order_id updated_size : ℕ) → BookEvent
  cancels : List ℕ → BookEvent

module _ (e : EntityStore) where
  abbrev pub IsBook : Context e → Type 0
  IsBook c = (k : Key) → IsStored k (e.get c.kuru_orders k)

  put_order-IsBook :
      (o : Option KuruOrder) (c : Context e) → AreSized o → IsBook c → IsBook (put_order e o c)
  unfolding put_order
  put_order-IsBook none c s h k = h k
  put_order-IsBook (some o) c s h k = elim (Bool-cases (key_eq o.id k)) [
    | inl hit ↦
        let now : e.get (e.set c.kuru_orders o.id o) k ≡ some o =
          e.get-set c.kuru_orders o.id o k ∙ rw hit refl in
        subst (IsStored k) (sym now) (key_eq→eq o.id k hit, s)
    | inr miss ↦
        let still : e.get (e.set c.kuru_orders o.id o) k ≡ e.get c.kuru_orders k =
          e.get-set c.kuru_orders o.id o k ∙ rw miss refl in
        subst (IsStored k) (sym still) (h k)
  ]

  order_created-IsBook :
      (p : OrderCreated) (event : Log) (c : Context e)
      → IsBook c
      → IsBook (order_created e p event c)
  unfolding order_created
  order_created-IsBook p event c h =
      let markets = e.get_where c.markets (λ m. m.market == event.src_address) in
      put_order-IsBook (order_for p event markets) c (order_for-sized p event markets) h

  order_traded-IsBook :
      (order_id updated_size : ℕ) (event : Log) (c : Context e)
      → IsBook c
      → IsBook (order_traded e order_id updated_size event c)
  unfolding order_traded
  order_traded-IsBook order_id updated_size event c h =
      let k = order_key event.src_address order_id in
      put_order-IsBook (after_trade (e.get c.kuru_orders k) updated_size event) c
        (after_trade-sized k (e.get c.kuru_orders k) updated_size event) h

  orders_canceled-IsBook :
      (ids : List ℕ) (event : Log) (c : Context e)
      → IsBook c
      → IsBook (orders_canceled e ids event c)
  unfolding orders_canceled
  orders_canceled-IsBook [] event c h = h
  orders_canceled-IsBook (id ∷ ids) event c h =
      let k = order_key event.src_address id in
      orders_canceled-IsBook ids event _ (
        put_order-IsBook (after_cancel (e.get c.kuru_orders k) event) c
          (after_cancel-sized k (e.get c.kuru_orders k) event (h k)) h)

  pub handle_book : BookEvent → Log → Context e → Context e
  handle_book (creates p) event c = order_created e p event c
  handle_book (trades order_id updated_size) event c = order_traded e order_id updated_size event c
  handle_book (cancels ids) event c = orders_canceled e ids event c

  unfoldable pub handle_all : List (BookEvent × Log) → Context e → Context e
  unfolding handle_book
  handle_all [] c = c
  handle_all ((ev, log) ∷ rest) c = handle_all rest (handle_book ev log c)

  handle_book-IsBook :
      (ev : BookEvent) (log : Log) (c : Context e) → IsBook c → IsBook (handle_book ev log c)
  unfolding handle_book
  handle_book-IsBook (creates p) log c h = order_created-IsBook p log c h
  handle_book-IsBook (trades order_id updated_size) log c h =
      order_traded-IsBook order_id updated_size log c h
  handle_book-IsBook (cancels ids) log c h = orders_canceled-IsBook ids log c h

  handle_all-kept :
      (evs : List (BookEvent × Log)) (c : Context e) → IsBook c → IsBook (handle_all evs c)
  unfolding handle_all
  handle_all-kept [] c h = h
  handle_all-kept ((ev, log) ∷ rest) c h =
      handle_all-kept rest (handle_book ev log c) (handle_book-IsBook ev log c h)

  -- After any sequence of order book events on an index without orders, each stored order is under its
  -- own id and its sizes are those of its status: an open order has nothing filled and at least its size
  -- remaining; of a partial one both parts are positive and make up the size; a filled one is filled
  -- whole with nothing remaining; and a cancelled one has nothing remaining and at most its size filled.
  pub handle_all-IsBook :
      (evs : List (BookEvent × Log)) (c : Context e)
      → ((k : Key) → e.get c.kuru_orders k ≡ none)
      → IsBook (handle_all evs c)
  handle_all-IsBook evs c empty = handle_all-kept evs c λ k. subst (IsStored k) (sym (empty k)) tt
