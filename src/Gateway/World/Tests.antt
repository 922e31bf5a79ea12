-- ===== src/Gateway/World/Tests.antt =====
-- A browser that hangs up after two deltas, a purchase through the gateway, and each theorem at such
-- a run.
use pipsim.Common.{ℕ, ◌≡◌, refl, inl, inr, true, false, some, List, [], ◌∷◌}
use pipsim.Common.Strings.{bytes}
use pipsim.Connect.{ok}
use pipsim.Workplace.{food}
use pipsim.Economy
use pipsim.Economy.Outside.{Pip, Snapshot}
use pipsim.Economy.Payroll.{Purchase, any_id, find_pip, purchase_inside, check_buyer}
use pipsim.Economy.Payroll.Purchases.{SawBuyer}
use pipsim.Gateway.World.{Outside, Sent, delivered, end_of_stream, new_server, buy, stream_world}
use pipsim.Gateway.World.Streams.{Streams, IsFaithful, stream_world-Streams}
use pipsim.Gateway.World.Purchases.{buy_through}

-- The deltas that the browser has.
abbrev Browser : Type 0
Browser = List ℕ

abbrev take_two : ℕ → Browser → Browser × Sent
take_two delta [] = (delta ∷ [], delivered)
take_two delta (a ∷ []) = (a ∷ delta ∷ [], delivered)
take_two delta (a ∷ b ∷ w) = (a ∷ b ∷ w, end_of_stream)

abbrev core : Outside Browser ℕ ℕ ℕ ℕ
core = record {
  snapshot = λ w. (w, some (record { tick = 9; pips = []; workplaces = []; structures = [] }));
  watch_deltas = λ from w. (w, some (record { deltas = 5 ∷ 6 ∷ 7 ∷ 8 ∷ []; failed = true }));
  submit_hire = λ pip id w. (w, some (record { accepted = true; reason = bytes "" }));
  send = take_two;
  is_cancelled = λ w. false;
}

run-stream : stream_world core 0 [] ≡ (5 ∷ 6 ∷ [], 2, ok tt)
unfolding stream_world
run-stream = refl

take_two-IsFaithful : IsFaithful core (λ w. w)
take_two-IsFaithful delta [] = inl (refl, refl)
take_two-IsFaithful delta (a ∷ []) = inl (refl, refl)
take_two-IsFaithful delta (a ∷ b ∷ w) = inr (λ e. cc, refl)

stream_world-Streams_example :
    Streams core
      (λ w. w)
      (some (record { deltas = 5 ∷ 6 ∷ 7 ∷ 8 ∷ []; failed = true }))
      []
      (stream_world core 0 [])
stream_world-Streams_example = stream_world-Streams core (λ w. w) take_two-IsFaithful 0 []

-- Pip 1 is inside building 7.
abbrev worker : Pip
worker = record { id = 1; employer_workplace_id = 7; inside_workplace_id = 7; balance = 40 }

abbrev town : Economy.Outside.Outside Browser
town = record {
  now = λ w. 0;
  snapshot = λ w. (w, some (record { tick = 9; pips = worker ∷ [] }));
  submit = λ i w. (w, true);
  work =
      λ id pip tick w. (w, some (record { shift_should_end = false; need_deltas = []; wage = 9 }));
  end_shift = λ id pip tick reason w. w;
  buy = λ id pip kind tick w. (w, ok (record { ok = true; reason = bytes ""; price = 30 }));
  publish_offer = λ kind pip tick w. (w, true);
  get_balance = λ account w. (w, ok 0);
  transfer = λ request w. (w, ok (record { ok = true; reason = bytes ""; payer_balance = 0 }));
  batch_transfer =
      λ request w. (w, ok (record { ok = true; reason = bytes ""; payer_balance = 0 }));
}

abbrev meal : Purchase
meal = record { ok = true; reason = bytes ""; price = 30 }

buy_through_example :
    (any_id 7 (7 ∷ []) ≡ true)
    × SawBuyer town 1 7 (some (record { tick = 9; pips = worker ∷ [] })) meal
unfolding buy Economy.Payroll.buy any_id check_buyer find_pip purchase_inside
buy_through_example = buy_through core town (new_server 42 10) (7 ∷ []) 1 7 food [] meal refl refl
