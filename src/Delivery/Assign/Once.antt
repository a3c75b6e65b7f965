-- ===== src/Delivery/Assign/Once.antt =====
-- A public mission of backend/src/delivery/delivery.service.ts is taken once, by an independent courier.
use afrique_os.Common.{ℕ, ◌≡◌, ◌≢◌, refl, sym, ap, ◌∙◌, true, false, some, arith, ◌==◌}
use afrique_os.Common.Tables.{find_first, update_many, count, count-update_many_out}
use afrique_os.Database.Rows.{Mission, Courier, Db}
use afrique_os.Database.Action.{
  ok, err, outcome, after, continue-ok, continue-after, continue-holds, roll_back-ok, conflict,
}
use afrique_os.Delivery.Assign.{
  accept_public_mission, verified_independent_courier, claim_mission, if_claimed, is_claimable,
  claim, is_attached, is_ready,
}
use afrique_os.Delivery.Running.Changes.{if_claimed-missions}

verified_courier-after : (user : ℕ) (db : Db) → after (verified_independent_courier user) db ≡ db
unfolding verified_independent_courier
verified_courier-after user db = ground arith

-- Who is let through.
abbrev pub MayTake : ℕ → Db → Courier → Type 0
MayTake user db c =
    (find_first (λ x. x.user_id == user) db.couriers ≡ some c)
    × (is_attached c db ≡ false)
    × (is_ready c ≡ true)

verified_courier-MayTake :
    (user : ℕ) (db : Db) (c : Courier)
    → outcome (verified_independent_courier user) db ≡ ok c
    → MayTake user db c
unfolding verified_independent_courier
verified_courier-MayTake user db c h = ground arith

claim_taken :
    (now new_id id : ℕ) (c : Courier) (db : Db)
    → count (is_claimable id) db.missions ≡ 0
    → claim_mission now new_id id c db ≡ (err conflict, db)
unfolding claim_mission if_claimed
claim_taken now new_id id c db e = rw e refl

claim_mission-missions :
    (now new_id id : ℕ) (c : Courier) (db : Db) (m : Mission)
    → outcome (claim_mission now new_id id c) db ≡ ok m
    → (after (claim_mission now new_id id c) db).missions
      ≡ update_many (is_claimable id) (claim now c.id) db.missions
unfolding claim_mission
claim_mission-missions now new_id id c db m h =
    ap (λ r. r.1.missions) (roll_back-ok db _ h)
    ∙ if_claimed-missions (count (is_claimable id) db.missions) new_id id c _

-- Nothing is claimable after a claim.
claimed_out : (now id courier : ℕ) (m : Mission) → is_claimable id (claim now courier m) ≡ false
claimed_out now id courier m = ground arith

module _ (now new_id id user : ℕ) (db : Db) (m : Mission)
    (h : outcome (accept_public_mission now new_id id user) db ≡ ok m) where
  accepted-missions :
      (c : Courier) × MayTake user db c
      × ((after (accept_public_mission now new_id id user) db).missions
          ≡ update_many (is_claimable id) (claim now c.id) db.missions)
  unfolding accept_public_mission
  accepted-missions =
      let (c, first, second) =
        continue-ok (verified_independent_courier user db) (claim_mission now new_id id) h in
      let same = verified_courier-after user db in
      let claimed : outcome (claim_mission now new_id id c) db ≡ ok m =
        sym (ap (λ d. outcome (claim_mission now new_id id c) d) same) ∙ second in
      (
        c,
        verified_courier-MayTake user db c first,
        ap (λ r. r.1.missions)
              (continue-after (verified_independent_courier user db) (claim_mission now new_id id)
                first)
            ∙ ap (λ d. (after (claim_mission now new_id id c) d).missions) same
            ∙ claim_mission-missions now new_id id c db m claimed,
      )

refused_after :
    (now new_id id user : ℕ) (db : Db)
    → count (is_claimable id) db.missions ≡ 0
    → (after (accept_public_mission now new_id id user) db ≡ db)
      × ((m : Mission) → outcome (accept_public_mission now new_id id user) db ≢ ok m)
unfolding accept_public_mission
refused_after now new_id id user db e =
    let same = verified_courier-after user db in
    (
      continue-holds (λ d. d ≡ db) (verified_independent_courier user db)
          (claim_mission now new_id id) same
          (λ c.
            ap (λ d. after (claim_mission now new_id id c) d) same
            ∙ ap (λ r. r.1) (claim_taken now new_id id c db e)),
      (λ m h.
          let (c, _, second) =
            continue-ok (verified_independent_courier user db) (claim_mission now new_id id) h in
          let clash : err conflict ≡ ok m =
            sym (ap (λ r. r.0) (claim_taken now new_id id c db e))
            ∙ sym (ap (λ d. outcome (claim_mission now new_id id c) d) same)
            ∙ second in
          cc),
    )

-- A public mission is taken once, and by a courier of no agency whose profile is verified and active:
-- the acceptance that goes through sets that courier on the mission and on no other, and from then on
-- every acceptance of the same mission, by anyone, fails and changes nothing.
pub accept_public_mission_once :
    (now new_id id user : ℕ) (db : Db) (m : Mission)
    → outcome (accept_public_mission now new_id id user) db ≡ ok m
    → (c : Courier) × MayTake user db c
      × ((after (accept_public_mission now new_id id user) db).missions
          ≡ update_many (is_claimable id) (claim now c.id) db.missions)
      × ((now' new_id' user' : ℕ)
          → (after
                (accept_public_mission now' new_id' id user')
                (after (accept_public_mission now new_id id user) db)
              ≡ after (accept_public_mission now new_id id user) db)
            × ((m' : Mission)
                → outcome
                    (accept_public_mission now' new_id' id user')
                    (after (accept_public_mission now new_id id user) db)
                  ≢ ok m'))
accept_public_mission_once now new_id id user db m h =
    let (c, may, table) = accepted-missions now new_id id user db m h in
    (
      c,
      may,
      table,
      λ now' new_id' user'.
          refused_after now' new_id' id user' (after (accept_public_mission now new_id id user) db)
            (ap (count (is_claimable id)) table
              ∙ count-update_many_out (is_claimable id) (claim now c.id) db.missions
                  (claimed_out now id c.id)),
    )
