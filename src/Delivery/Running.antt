-- ===== src/Delivery/Running.antt =====
-- The missions under way in backend/src/delivery/delivery.service.ts: how the operations change the
-- table of missions, and that a shipment never has two at once.
pub mod Changes
pub mod Steps
use afrique_os.Common.{
  ℕ, suc, ◌≤◌, ◌≡◌, refl, sym, ap, ◌∙◌, ◌==◌, ==→eq, ltb, Bool, true, false, List, ◌∷◌, arith,
  if◌then◌else◌, Bool-cases, inl, inr, any,
}
use afrique_os.Common.Tables.{update_many, count, count-update_many_le, any-count}
use afrique_os.Database.Rows.{Mission, Db}
use afrique_os.Delivery.Dispatch.{is_running_for}

-- A change of the table: none; a new mission for a shipment that has none under way; or an update that
-- sets no mission under way that was not.
pub data Change : List Mission → List Mission → Type 0 where
  kept : {ms : List Mission} → Change ms ms
  created :
      {ms : List Mission} (m : Mission)
      → any (is_running_for m.shipment_id) ms ≡ false
      → Change ms (m ∷ ms)
  updated :
      {ms : List Mission} (p : Mission → Bool) (f : Mission → Mission)
      → ((id : ℕ) (m : Mission)
          → p m ≡ true
          → is_running_for id (f m) ≡ true
          → is_running_for id m ≡ true)
      → Change ms (update_many p f ms)

-- No shipment has two missions under way.
abbrev pub OneRunning : List Mission → Type 0
OneRunning ms = (id : ℕ) → count (is_running_for id) ms ≤ 1

none_passes : (ms : List Mission) (p : Mission → Bool) → any p ms ≡ false → count p ms ≡ 0
none_passes ms p h = zero_of (count p ms) (sym (any-count p ms) ∙ h)
  where
    zero_of : (n : ℕ) → ltb 0 n ≡ false → n ≡ 0
    zero_of n e = ground arith

at_most_one : (b : Bool) (n : ℕ) → n ≡ 0 → (if b then suc n else n) ≤ 1
at_most_one b n h = ground arith

created-OneRunning :
    (m : Mission) (ms : List Mission)
    → any (is_running_for m.shipment_id) ms ≡ false
    → OneRunning ms
    → OneRunning (m ∷ ms)
created-OneRunning m ms none_running one id = elim (Bool-cases (m.shipment_id == id)) [
  | inl same ↦
      let here : count (is_running_for m.shipment_id) ms ≡ 0 =
        none_passes ms (is_running_for m.shipment_id) none_running in
      let empty : count (is_running_for id) ms ≡ 0 =
        ap (λ n. count (is_running_for n) ms) (sym (==→eq m.shipment_id id same)) ∙ here in
      at_most_one (is_running_for id m) (count (is_running_for id) ms) empty
  | inr other ↦ rw other (one id)
]

pub Change-OneRunning : {ms ms' : List Mission} → Change ms ms' → OneRunning ms → OneRunning ms'
Change-OneRunning kept one id = one id
Change-OneRunning (created m none_running) one id = created-OneRunning m _ none_running one id
Change-OneRunning (updated {ms = ms} p f only) one id =
    omega (arith, count-update_many_le (is_running_for id) p f ms (only id), one id)
