-- ===== src/Deliveries/Claim.antt =====
-- Claims of internal/storage/deliveries.go: the row that is chosen, and the endpoint it occupies.
use acb_transaction_webhook.Base.{
  ℕ, ◌+◌, ◌∙◌, ◌≡◌, refl, sym, ap, String, str_eq, eq_iff, Bool, true, false, Option, none, some,
  List, [], ◌∷◌, if◌then◌else◌, arith, Bool-cases, inl, inr, ◌⊎◌,
}
use acb_transaction_webhook.Base.Clock.{Instant}
use acb_transaction_webhook.Base.Ensures.{Ensures, Ensures-fail_if}
use acb_transaction_webhook.Base.Rows.{has_row, update_rows}
use acb_transaction_webhook.Store.{Delivery, Database}
use acb_transaction_webhook.Deliveries.{
  blocks_claim, candidate, first_due, claimed_row, take_claim, write_claim, claim_found,
  claim_delivery, due_first,
}
use acb_transaction_webhook.Deliveries.Serial.{
  Mem, live, IsSerial, Mem-has_row, Origin, Mem-update, HasUniqueIds, HasUniqueIds-update, Kept,
}

module _ (earlier : String → String → Bool) where
  claimed_row-id :
      (token : String) (until : Instant) (d : Delivery)
      → (claimed_row earlier token until d).id ≡ d.id
  unfolding claimed_row
  claimed_row-id token until d = refl

  first_due-Mem :
      (p : Delivery → Bool) (xs : List Delivery) {d : Delivery}
      → first_due earlier p xs ≡ some d
      → Mem d xs
  unfolding first_due Mem
  first_due-Mem p [] h = absurd (cc)
  first_due-Mem p (x ∷ xs) {d} h = elim (Bool-cases (p x)) [
    | inl t ↦ chosen_Mem (first_due earlier p xs) (λ b e. first_due-Mem p xs {d = b} e) (rw t at h)
    | inr t ↦ inr (first_due-Mem p xs (rw t at h))
  ]
    where
      chosen_Mem :
          (rest : Option Delivery)
          → ((b : Delivery) → rest ≡ some b → Mem b xs)
          → elim rest [
            | none ↦ some x
            | some b ↦ (if due_first earlier b x then some b else some x)
          ]
            ≡ some d
          → (d ≡ x) ⊎ Mem d xs
      chosen_Mem none ih e = inl (cc)
      chosen_Mem (some b) ih e = elim (Bool-cases (due_first earlier b x)) [
        | inl w ↦ let bd : b ≡ d = cc (rw w at e) in inr (rw bd at (ih b refl))
        | inr w ↦ inl (cc (rw w at e))
      ]

  first_due-holds :
      (p : Delivery → Bool) (xs : List Delivery) {d : Delivery}
      → first_due earlier p xs ≡ some d
      → p d ≡ true
  unfolding first_due
  first_due-holds p [] h = absurd (cc)
  first_due-holds p (x ∷ xs) {d} h = elim (Bool-cases (p x)) [
    | inl t ↦ chosen (first_due earlier p xs) (λ b e. first_due-holds p xs {d = b} e) (rw t at h) t
    | inr t ↦ first_due-holds p xs (rw t at h)
  ]
    where
      chosen :
          (rest : Option Delivery)
          → ((b : Delivery) → rest ≡ some b → p b ≡ true)
          → elim rest [
            | none ↦ some x
            | some b ↦ (if due_first earlier b x then some b else some x)
          ]
            ≡ some d
          → p x ≡ true
          → p d ≡ true
      chosen none ih e t = cc
      chosen (some b) ih e t = elim (Bool-cases (due_first earlier b x)) [
        | inl w ↦ cc (ih b refl, rw w at e)
        | inr w ↦ cc (rw w at e, t)
      ]

  -- No other row of the endpoint is under a lease when a candidate is chosen.
  clash :
      (now : Instant) (db : Database) (d y : Delivery)
      → candidate now db d ≡ true
      → Mem y db.deliveries
      → live now y ≡ true
      → y.endpoint_id ≡ d.endpoint_id
      → y.id ≡ d.id
  unfolding candidate blocks_claim live
  clash now db d y may my ly same = elim (Bool-cases (str_eq y.id d.id)) [
    | inl e ↦ (eq_iff y.id d.id).0 e
    | inr e ↦
        let free : has_row (blocks_claim now d) db.deliveries ≡ false = ground (arith, may) in
        let blocked : blocks_claim now d y ≡ true =
          ground (arith, ly, e, (eq_iff y.endpoint_id d.endpoint_id).1 same) in
        absurd (cc (free, Mem-has_row (blocks_claim now d) y db.deliveries my blocked))
  ]

  taken :
      (now : Instant) (rows : List Delivery) (d x : Delivery)
      → HasUniqueIds rows
      → Mem d rows
      → Mem x rows
      → take_claim earlier now d x ≡ true
      → x ≡ d
  unfolding HasUniqueIds
  taken now rows d x unique md mx t = unique x d mx md ((eq_iff x.id d.id).0 (ground (arith, t)))

  -- A claimed row among the others of its endpoint.
  claimed-IsSerial :
      (token : String) (now until : Instant) (db : Database) (d : Delivery)
      → candidate now db d ≡ true
      → Mem d db.deliveries
      → HasUniqueIds db.deliveries
      → IsSerial now db.deliveries
      → IsSerial now
          (update_rows (take_claim earlier now d) (claimed_row earlier token until) db.deliveries)
  unfolding IsSerial Origin claimed_row
  claimed-IsSerial token now until db d may md unique serial a b ma mb la lb same =
      let (x, mx, ox) =
        Mem-update (take_claim earlier now d) (claimed_row earlier token until) a db.deliveries
          ma in
      let (y, my, oy) =
        Mem-update (take_claim earlier now d) (claimed_row earlier token until) b db.deliveries
          mb in
      elim ox [
        | inl (_, ex) ↦ elim oy [
          | inl (_, ey) ↦ serial a b (rw (sym ex) at mx) (rw (sym ey) at my) la lb same
          | inr (t, ey) ↦
              let yd = taken now db.deliveries d y unique md my t in
              clash now db d a may (rw (sym ex) at mx) la (
                cc (
                  same,
                  ap (λ (r : Delivery). r.endpoint_id) ey,
                  ap (λ (r : Delivery). r.endpoint_id) yd,
                ))
              ∙ cc (ap (λ (r : Delivery). r.id) ey, ap (λ (r : Delivery). r.id) yd)
        ]
        | inr (t, ex) ↦
            let xd = taken now db.deliveries d x unique md mx t in
            let own : a.id ≡ d.id =
              cc (ap (λ (r : Delivery). r.id) ex, ap (λ (r : Delivery). r.id) xd) in
            elim oy [
              | inl (_, ey) ↦
                  own
                  ∙ sym (
                      clash now db d b may (rw (sym ey) at my) lb (
                        cc (
                          same,
                          ap (λ (r : Delivery). r.endpoint_id) ex,
                          ap (λ (r : Delivery). r.endpoint_id) xd,
                        )))
              | inr (u, ey) ↦
                  let yd = taken now db.deliveries d y unique md my u in
                  own ∙ sym (ap (λ (r : Delivery). r.id) ey ∙ ap (λ (r : Delivery). r.id) yd)
            ]
      ]

  found-Kept :
      (token : String) (now : Instant) (lease : ℕ) (db : Database) (found : Option Delivery)
      → ((d : Delivery) → found ≡ some d → (candidate now db d ≡ true) × Mem d db.deliveries)
      → Kept now db
      → Ensures (λ r. Kept now r.1) (claim_found earlier token now lease db found)
  unfolding claim_found write_claim
  found-Kept token now lease db none good kept = Ensures.fails
  found-Kept token now lease db (some d) good (unique, serial) =
      let (may, md) = good d refl in
      Ensures-fail_if _ _ _ λ one. Ensures.returns (
        HasUniqueIds-update _ _ db.deliveries (claimed_row-id token (now + lease)) unique,
        claimed-IsSerial token now (now + lease) db d may md unique serial,
      )

  pub claim-Kept :
      (token : String) (now : Instant) (lease : ℕ) (db : Database)
      → Kept now db
      → Ensures (λ r. Kept now r.1) (claim_delivery earlier token now lease db)
  unfolding claim_delivery
  claim-Kept token now lease db kept = Ensures-fail_if _ _ _ λ positive.
      found-Kept token now lease db _
        (λ d e. (first_due-holds _ db.deliveries e, first_due-Mem _ db.deliveries e)) kept
