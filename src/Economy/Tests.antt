-- ===== src/Economy/Tests.antt =====
-- Runs of the economy's rules against a small world, and each theorem at an input that meets its
-- hypotheses.
use pipsim.Common.{◌≡◌, refl, true, false, not, ◌||◌, some, List, [], ◌∷◌, if◌then◌else◌}
use pipsim.Common.Tests.{ℕ-Eq}
use pipsim.Common.Strings.{bytes, bytes_eq, Bytes-Eq}
use pipsim.Common.Assoc.{lookup, insert, delete}
use pipsim.Connect.{ok}
use pipsim.Economy.Outside.{Outside, Pip, Snapshot, Intent}
use pipsim.Economy.Driver.{
  Driver, holds, sync_employment, dropped, with_hires, fresh_hires, offer, work,
}
use pipsim.Economy.Driver.Employment.{is_fresh, among, sync_employment_exact}
use pipsim.Economy.Payroll.{Purchase}
use pipsim.Economy.Fleet.{
  Fleet, play_round, employ, offer_first, serve_pip, employed_by, ids_of, rotation,
}

-- Pip 1 is inside building 7 and works there; pip 2 has no job.
abbrev worker : Pip
worker = record { id = 1; employer_workplace_id = 7; inside_workplace_id = 7; balance = 40 }

abbrev idle : Pip
idle = record { id = 2; employer_workplace_id = 0; inside_workplace_id = 0; balance = 5 }

abbrev seen : Snapshot
seen = record { tick = 100; pips = worker ∷ idle ∷ [] }

-- A world that keeps what was submitted to it; its clock stands still.
abbrev town : Outside (List Intent)
town = record {
  now = λ w. 20_000_000_000;
  snapshot = λ w. (w, some seen);
  submit = λ i w. (i ∷ w, true);
  work =
      λ id pip tick w. (w, some (record { shift_should_end = false; need_deltas = []; wage = 9 }));
  end_shift = λ id pip tick reason w. w;
  buy = λ id pip kind tick w. (w, ok (record { ok = true; reason = bytes ""; price = 30 }));
  publish_offer = λ kind pip tick w. (w, true);
  get_balance = λ account w. (w, ok 0);
  transfer = λ request w. (w, ok (record { ok = true; reason = bytes ""; payer_balance = 0 }));
  batch_transfer =
      λ request w. (w, ok (record { ok = true; reason = bytes ""; payer_balance = 0 }));
}

abbrev farm : Driver
farm = record {
  id = 7;
  kind = bytes "farm";
  employed = (1, true) ∷ (4, true) ∷ (5, true) ∷ [];
  hired_at = (4, 19_000_000_000) ∷ (5, 1_000_000_000) ∷ [];
  pending = [];
}

-- Pip 4 was hired a second ago, and pip 5 so long ago that the snapshot is believed.
sync-farm : (sync_employment ((1, true) ∷ []) 20_000_000_000 farm).1 ≡ 5 ∷ []
unfolding sync_employment dropped lookup with_hires fresh_hires insert
sync-farm = refl

sync_employment_exact_example :
    let (d', gone) = sync_employment ((1, true) ∷ []) 20_000_000_000 farm in
    let stays = is_fresh 20_000_000_000 (lookup 4 farm.hired_at) || holds 4 ((1, true) ∷ []) in
    (among 4 gone ≡ (if true then not stays else false)) × (holds 4 d'.employed ≡ stays)
unfolding lookup
sync_employment_exact_example =
    sync_employment_exact 4 20_000_000_000 ((1, true) ∷ []) farm (refl, (refl, tt))

abbrev bought : Purchase
bought = record { ok = true; reason = bytes ""; price = 30 }

abbrev fleet : Fleet
fleet = record { drivers = (7, farm) ∷ []; next = 0 }

-- Pip 1 works for 9, and pip 2 is offered the job.
play-round :
    let r = play_round town seen fleet [] in
    (r.worked ≡ 1) × (r.offered ≡ 1) × (lookup 7 r.credits ≡ some ((1, 9) ∷ []))
unfolding play_round serve_pip lookup employ work insert offer_first rotation ids_of offer bytes_eq
    sync_employment dropped with_hires fresh_hires employed_by delete
play-round = (refl, refl, refl)
