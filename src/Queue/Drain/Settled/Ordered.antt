-- ===== src/Queue/Drain/Settled/Ordered.antt =====
-- Lists of deliveries whose tags increase, and what `ack` and `nack` settle of them.
use mathlib.Core.List.{append-nil, append_assoc}
use sd_flash_sale.Prelude.{sym, ap, ◌∙◌}
use sd_flash_sale.Prelude.{
  ℕ, ◌≤◌, ◌<◌, ◌≡◌, refl, not, List, [], ◌∷◌, ◌++◌, select, ltb, leb, ◌==◌, arith,
}
use sd_flash_sale.Queue.Drain.{
  Delivery, Channel, Ended, wrote, exhausted, unsettled, ack_up_to, nack, nack_all, last_tag,
  settle,
}

-- The tags increase, from above this one.
abbrev pub Above : ℕ → List Delivery → Type 0
Above lo [] = Unit
Above lo (d ∷ ds) = (lo < d.tag) × Above d.tag ds

pub Above-weaken : (a b : ℕ) (ds : List Delivery) → a ≤ b → Above b ds → Above a ds
Above-weaken a b [] le h = tt
Above-weaken a b (d ∷ ds) le h = (omega (arith, h.0), h.1)

pub Above-drop :
    (lo : ℕ) (d : Delivery) (ds ys : List Delivery)
    → Above lo (d ∷ ds ++ ys)
    → Above (last_tag d ds) ys
Above-drop lo d [] ys h = h.1
Above-drop lo d (e ∷ es) ys h = Above-drop d.tag e es ys h.1

last_tag-least :
    (lo : ℕ) (d : Delivery) (ds ys : List Delivery)
    → Above lo (d ∷ ds ++ ys)
    → d.tag ≤ last_tag d ds
last_tag-least lo d [] ys h = omega arith
last_tag-least lo d (e ∷ es) ys h = omega (arith, last_tag-least d.tag e es ys h.1, h.1.0)

select-Above :
    (lo t : ℕ) (ys : List Delivery) → t ≤ lo → Above lo ys → select (λ d. ltb t d.tag) ys ≡ ys
select-Above lo t [] le h = refl
select-Above lo t (y ∷ ys) le h =
    ground (arith, h.0, select-Above y.tag t ys (omega (arith, h.0)) h.1)

select-not-Above :
    (lo t : ℕ) (ys : List Delivery) → t ≤ lo → Above lo ys → select (λ d. leb d.tag t) ys ≡ []
select-not-Above lo t [] le h = refl
select-not-Above lo t (y ∷ ys) le h =
    ground (arith, h.0, select-not-Above y.tag t ys (omega (arith, h.0)) h.1)

select-rest :
    (lo : ℕ) (d : Delivery) (ds ys : List Delivery)
    → Above lo (d ∷ ds ++ ys)
    → select (λ e. ltb (last_tag d ds) e.tag) (d ∷ ds ++ ys) ≡ ys
select-rest lo d [] ys h = ground (arith, select-Above d.tag d.tag ys (omega arith) h.1)
select-rest lo d (e ∷ es) ys h =
    ground (arith, last_tag-least lo d (e ∷ es) ys h, select-rest d.tag e es ys h.1)

select-batch :
    (lo : ℕ) (d : Delivery) (ds ys : List Delivery)
    → Above lo (d ∷ ds ++ ys)
    → select (λ e. leb e.tag (last_tag d ds)) (d ∷ ds ++ ys) ≡ d ∷ ds
select-batch lo d [] ys h = ground (arith, select-not-Above d.tag d.tag ys (omega arith) h.1)
select-batch lo d (e ∷ es) ys h =
    ground (arith, last_tag-least lo d (e ∷ es) ys h, select-batch d.tag e es ys h.1)

select-others :
    (lo t : ℕ) (ys : List Delivery) → t ≤ lo → Above lo ys → select (λ e. not (e.tag == t)) ys ≡ ys
select-others lo t [] le h = refl
select-others lo t (y ∷ ys) le h =
    ground (arith, h.0, select-others y.tag t ys (omega (arith, h.0)) h.1)

select-none :
    (lo t : ℕ) (ys : List Delivery) → t ≤ lo → Above lo ys → select (λ e. e.tag == t) ys ≡ []
select-none lo t [] le h = refl
select-none lo t (y ∷ ys) le h =
    ground (arith, h.0, select-none y.tag t ys (omega (arith, h.0)) h.1)

-- What a flush that has ended leaves of the channel whose oldest deliveries are its batch
abbrev pub IsSettled : Ended → List Delivery → List Delivery → Channel → Channel → Type 0
IsSettled wrote batch ys ch after =
    (after.outstanding ≡ ys)
    × (after.acked ≡ ch.acked ++ batch)
    × (after.dead ≡ ch.dead)
    × (after.next_tag ≡ ch.next_tag)
IsSettled exhausted batch ys ch after =
    (after.outstanding ≡ ys)
    × (after.acked ≡ ch.acked)
    × (after.dead ≡ ch.dead ++ batch)
    × (after.next_tag ≡ ch.next_tag)
IsSettled unsettled batch ys ch after =
    (after.outstanding ≡ batch ++ ys)
    × (after.acked ≡ ch.acked)
    × (after.dead ≡ ch.dead)
    × (after.next_tag ≡ ch.next_tag)

nack_all-IsSettled :
    (lo : ℕ) (ds ys : List Delivery) (ch : Channel)
    → ch.outstanding ≡ ds ++ ys
    → Above lo (ds ++ ys)
    → IsSettled exhausted ds ys ch (nack_all ds ch)
unfolding nack_all nack
nack_all-IsSettled lo [] ys ch e h = (e, refl, sym (append-nil ch.dead), refl)
nack_all-IsSettled lo (d ∷ ds) ys ch e h =
    let one : select (λ x. x.tag == d.tag) ch.outstanding ≡ d ∷ [] =
      rw e (ground (arith, select-none d.tag d.tag (ds ++ ys) (omega arith) h.1)) in
    let others : select (λ x. not (x.tag == d.tag)) ch.outstanding ≡ ds ++ ys =
      rw e (ground (arith, select-others d.tag d.tag (ds ++ ys) (omega arith) h.1)) in
    let (rest, acked, dead, next) = nack_all-IsSettled d.tag ds ys (nack d ch) others h.1 in
    (rest, acked, dead ∙ ap (λ x. ch.dead ++ x ++ ds) one ∙ append_assoc ch.dead (d ∷ []) ds, next)

pub settle-IsSettled :
    (how : Ended) (lo : ℕ) (ds ys : List Delivery) (ch : Channel)
    → ch.outstanding ≡ ds ++ ys
    → Above lo (ds ++ ys)
    → IsSettled how ds ys ch (settle how ds ch)
unfolding settle ack_up_to
settle-IsSettled wrote lo [] ys ch e h = (e, sym (append-nil ch.acked), refl, refl)
settle-IsSettled exhausted lo [] ys ch e h = (e, refl, sym (append-nil ch.dead), refl)
settle-IsSettled unsettled lo [] ys ch e h = (e, refl, refl, refl)
settle-IsSettled unsettled lo (d ∷ ds) ys ch e h = (e, refl, refl, refl)
settle-IsSettled wrote lo (d ∷ ds) ys ch e h =
    (rw e (select-rest lo d ds ys h), rw e (rw (select-batch lo d ds ys h) refl), refl, refl)
settle-IsSettled exhausted lo (d ∷ ds) ys ch e h = nack_all-IsSettled lo (d ∷ ds) ys ch e h
