-- ===== src/Examples/OutboxRuns.antt =====
-- Runs of the theorems about outboxes: two rows, and relays that meet lost answers and failed commits.
use opsflow.Prelude.{
  ℕ, ◌+◌, ◌≤◌, ◌≡◌, refl, Bool, true, false, String, none, some, List, [], ◌∷◌, arith,
}
use opsflow.Outbox.{OutboxRow, pending, published, get, modify, marked_published, relay_once}
use opsflow.Outbox.Rows.{IsKeyed}
use opsflow.Outbox.Worker.{Send, accepted, answer_lost, Pass, World, relay_one, relay_all}
use opsflow.Outbox.Delivery.{contains, occurrences}
use opsflow.Outbox.Promises.{IsHonest, published_was_sent, published_is_final}
use opsflow.Outbox.Drain.{IsGood, relay_drains}

abbrev pass_at : ℕ → Send → Bool → Pass
pass_at now send commits = record {
  now = now;
  finished_at = now + 1;
  locked = λ _. false;
  send = send;
  commits = commits;
}

abbrev first_row : OutboxRow ℕ
first_row = record {
  id = 1;
  message = 70;
  publication_status = pending;
  publish_attempts = 0;
  created_at = 10;
  updated_at = 10;
  published_at = none;
  last_error = none;
}

abbrev second_row : OutboxRow ℕ
second_row = record first_row { id = 2; message = 80; created_at = 20; updated_at = 20 }

abbrev fresh_world : World ℕ
fresh_world = record { table = first_row ∷ second_row ∷ []; sent = [] }

fresh_world-IsHonest : IsHonest fresh_world
unfolding get
fresh_world-IsHonest i row h done = ground arith

fresh_world-IsKeyed : IsKeyed fresh_world.table
unfolding get
fresh_world-IsKeyed = (refl, (refl, tt))

-- The first commit fails and the second answer is lost, so the row is sent three times.
abbrev rough_passes : List Pass
rough_passes =
    pass_at 100 (accepted "m1") false
    ∷ pass_at 200 (answer_lost "timeout") true
    ∷ pass_at 300 (accepted "m2") true
    ∷ pass_at 400 (accepted "m3") true
    ∷ []

abbrev first_row_at_last : OutboxRow ℕ
first_row_at_last = record first_row {
  publication_status = published;
  publish_attempts = 2;
  updated_at = 301;
  published_at = some 301;
}

rough_run : get 1 (relay_all 50 rough_passes fresh_world).table ≡ some first_row_at_last
unfolding get relay_all relay_one relay_once modify
rough_run = refl

published_was_sent_example : contains 1 (relay_all 50 rough_passes fresh_world).sent ≡ true
published_was_sent_example =
    published_was_sent 50 rough_passes fresh_world 1 first_row_at_last fresh_world-IsKeyed
      fresh_world-IsHonest rough_run refl

abbrev half_done : World ℕ
half_done = record { table = marked_published 50 first_row ∷ second_row ∷ []; sent = 1 ∷ [] }

half_done-IsKeyed : IsKeyed half_done.table
unfolding get
half_done-IsKeyed = (refl, (refl, tt))

half_done_row : get 1 half_done.table ≡ some (marked_published 50 first_row)
unfolding get
half_done_row = refl

published_is_final_example :
    (get 1 (relay_all 50 rough_passes half_done).table ≡ some (marked_published 50 first_row))
    × (occurrences 1 (relay_all 50 rough_passes half_done).sent ≡ 1)
published_is_final_example =
    published_is_final 50 rough_passes half_done (marked_published 50 first_row) half_done-IsKeyed
      half_done_row refl

abbrev good_passes : List Pass
good_passes = pass_at 100 (accepted "m1") true ∷ pass_at 110 (accepted "m2") true ∷ []

pass_at-IsGood : (now : ℕ) (m : String) → 80 ≤ now → IsGood 80 (pass_at now (accepted m) true)
pass_at-IsGood now m h = record {
  commits = refl;
  free = λ _. refl;
  late = h;
  message_id = m;
  accepts = refl;
}

abbrev second_row_at_last : OutboxRow ℕ
second_row_at_last = marked_published 111 second_row

good_run : get 2 (relay_all 50 good_passes fresh_world).table ≡ some second_row_at_last
unfolding get relay_all relay_one relay_once modify
good_run = refl

relay_drains_example :
    (second_row_at_last.publication_status ≡ published)
    × (contains 2 (relay_all 50 good_passes fresh_world).sent ≡ true)
relay_drains_example =
    relay_drains 50 80 good_passes fresh_world 2 second_row_at_last fresh_world-IsKeyed
      fresh_world-IsHonest ((λ _. omega arith), ((λ _. omega arith), tt))
      (pass_at-IsGood 100 "m1" (omega arith), (pass_at-IsGood 110 "m2" (omega arith), tt))
      (omega arith) good_run
