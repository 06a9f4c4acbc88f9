-- ===== src/Test/Tests.antt =====
-- A run of one worker on one index, and the properties of the pool on it.
use rust_fox.Prelude.{
  ℕ, ◌+◌, ◌≡◌, ◌≤◌, refl, ◌⊎◌, true, false, ◌&&◌, List, [], ◌∷◌, Option, none, some, list_eq,
  nat_eq, length, min, leb, ltb, arith,
}
use rust_fox.Prelude.Fallible.{returns}
use rust_fox.Prelude.Text.{Text, codes}
use mathlib.Core.List.{Perm}
use rust_fox.Prelude.Dict.{Dict}
use rust_fox.Prelude.Int.{ℤ, pos}
use rust_fox.Prelude.Sort.{IsSorted}
use rust_fox.Core.Method.{get}
use rust_fox.Core.Model.{RequestSpec, Endpoint, no_auth, no_body, developing}
use rust_fox.Test.Ordering.{endpoint_le, order_endpoints, order_endpoints-IsSorted}
use rust_fox.Test.Collection
use rust_fox.Test.Collection.{collection_result, results_from, collection_result-in_order}
use rust_fox.Test.Load.{LoadConfig, Sample, workers_of, total_of, load_result, load_result_total}
use rust_fox.Test.Pool.Counts.{count, one_if}
use rust_fox.Test.Pool.Claims.{Reach-received}
use rust_fox.Test.Pool.Progress.{Movable, progress, Run, move, rest}
use rust_fox.Test.Pool.{
  Pool, start, put, claimed, Reach, here, then_step, IsDone, checked, stopped, pass_check, claim,
  exhaust, respond, send, receive,
}

abbrev failure : Sample ℕ
failure = record { ok = false; duration = 12; err = some (codes "timeout") }

abbrev end : Pool (Sample ℕ)
end = record {
  next = 2;
  workers = stopped ∷ [];
  channel = [];
  received = (0, failure) ∷ [];
  cancelled = false;
}

-- One index is claimed, answered, sent and received; then the worker finds no index left.
run : Reach 1 2 (start 1) end
run =
    then_step
      (then_step
        (then_step
          (then_step
            (then_step
              (then_step (then_step here (pass_check 0 refl refl refl))
                (claim 0 refl (omega arith) refl))
              (respond 0 0 failure refl refl))
            (send 0 0 failure refl (omega arith) refl))
          (receive (0, failure) [] refl refl))
        (pass_check 0 refl refl refl))
      (exhaust 0 refl (omega arith) refl)

end-IsDone : IsDone end
end-IsDone = ((refl, tt), refl)

Reach-received_example :
    ((k : ℕ) → count k end.received ≡ one_if (ltb k end.next && ltb k 1))
    × (length end.received ≡ min end.next 1)
    × ((end.cancelled ≡ true) ⊎ (1 ≤ end.next))
Reach-received_example = Reach-received 1 2 1 (omega arith) run end-IsDone

progress_example : IsDone {R = Sample ℕ} (start 1) ⊎ Movable {R = Sample ℕ} 1 2 (start 1)
progress_example = progress 1 2 (start 1) failure (omega arith)

abbrev one_request : LoadConfig
one_request = record { concurrency = 0; total = 0 }

load_result_total_example :
    ((load_result leb 0 end).total ≡ (load_result leb 0 end).ok + (load_result leb 0 end).failed)
    × ((load_result leb 0 end).total ≡ min end.next (total_of one_request))
    × (((load_result leb 0 end).cancelled ≡ true)
        ⊎ ((load_result leb 0 end).total ≡ total_of one_request))
    × (length (load_result leb 0 end).errors ≤ 5)
unfolding workers_of total_of
load_result_total_example = load_result_total leb 0 one_request 2 run end-IsDone

leb_refl : (a : ℕ) → leb a a ≡ true
leb_refl a = ground arith

leb_trans : (a b c : ℕ) → leb a b ≡ true → leb b c ≡ true → leb a c ≡ true
leb_trans a b c h k = ground arith

leb_total : (a b : ℕ) → leb a b ≡ false → leb b a ≡ true
leb_total a b h = ground arith

-- The worker passes its check and claims the index.
two_moves : Run {R = Sample ℕ} 1 2 (start 1) 2 (claimed (put (start 1) 0 checked) 0)
two_moves =
    move (move (rest refl refl) (pass_check 0 refl refl refl, refl) refl)
      (claim 0 refl (omega arith) refl, refl) refl

collection_result-in_order_example :
    (collection_result 1 end ≡ returns (results_from 0 1 end.received, end.cancelled))
    × ((end.cancelled ≡ true) ⊎ (length (results_from 0 1 end.received) ≡ 1))
unfolding Collection.workers_of
collection_result-in_order_example = collection_result-in_order (some 1) 0 run end-IsDone

abbrev plain_request : RequestSpec Unit
plain_request = record {
  params = [];
  headers = [];
  path_variables = [];
  auth = no_auth;
  body = no_body;
  active_tab = none;
  timeout_ms = none;
  follow_redirects = true;
  tests = none;
  disable_cookies = false;
  body_docs = [];
}

abbrev endpoint : Option Text → Text → ℤ → Endpoint Unit
endpoint folder name sort_order = record {
  id = name;
  project_id = codes "shop";
  folder_id = folder;
  name = name;
  method = get;
  path = codes "/";
  description = [];
  status = developing;
  sort_order = sort_order;
  request = plain_request;
  created_at = 0;
  updated_at = 0;
}

abbrev endpoints : List (Endpoint Unit)
endpoints =
    endpoint none (codes "last") (pos 0)
    ∷ endpoint (some (codes "users")) (codes "b") (pos 2)
    ∷ endpoint (some (codes "users")) (codes "a") (pos 2)
    ∷ []

abbrev folders : Dict Text ℤ
folders = (codes "users", pos 1) ∷ []

order_endpoints-IsSorted_example :
    IsSorted (endpoint_le folders) (order_endpoints endpoints folders)
    × Perm (order_endpoints endpoints folders) endpoints
order_endpoints-IsSorted_example = order_endpoints-IsSorted folders endpoints
