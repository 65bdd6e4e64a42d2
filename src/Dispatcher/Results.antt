-- ===== src/Dispatcher/Results.antt =====
-- HandleResult of internal/manager/dispatcher.go and the window of recent ids.
use sit.Prelude.{
  Text, ◌≡◌, refl, true, false, Option, none, some, arith, has, is_empty, Bool-cases, inl, inr, ap,
}
use sit.Exec.{Result, ok, err, ◌>>=◌}
use sit.Exec.Keeps.{Keeps, Keeps-modify, keeps_rules}
use sit.Protocol.{Notification}
use sit.Store.Models.{Task, ActivityType, ActivityDetail}
use sit.Window.{Window, lookup, push}
use sit.Window.Laws.{IsWindow, push-IsWindow}
use sit.Window.Memory.{lookup-push_self}
use sit.Manager.{Dispatcher, Manager}
use sit.Manager.Rules.{OfDispatcher, dispatcher_rules}
use sit.Dispatcher.{
  dedup_window, log_activity, announce, notify_waiter, mark_seen, seen_recently, store_result,
  handle_result,
}

abbrev HasWindow : Window (Unit {0}) → Dispatcher → Type 0
HasWindow w d = d.window ≡ w

module _ (w : Window (Unit {0})) where
  log_activity-HasWindow :
      (node_id : Text) (typ : ActivityType) (detail : ActivityDetail)
      → Keeps (OfDispatcher (HasWindow w)) (log_activity node_id typ detail)
  unfolding log_activity
  log_activity-HasWindow node_id typ detail = search (keeps_rules, dispatcher_rules)

  notify_waiter-HasWindow :
      (id : Text) (t : Task) → Keeps (OfDispatcher (HasWindow w)) (notify_waiter id t)
  unfolding notify_waiter
  notify_waiter-HasWindow id t = Keeps-modify _ (λ m h. record { holds = ground (arith, h.holds) })

  announce-HasWindow :
      (id : Text) (r : Result Task) → Keeps (OfDispatcher (HasWindow w)) (announce id r)
  unfolding announce
  announce-HasWindow id (ok t) =
      search (keeps_rules, log_activity-HasWindow, notify_waiter-HasWindow)
  announce-HasWindow id (err e) = search keeps_rules

  store_result-HasWindow : (n : Notification) → Keeps (OfDispatcher (HasWindow w)) (store_result n)
  unfolding store_result
  store_result-HasWindow n = search (keeps_rules, dispatcher_rules, announce-HasWindow)

-- `mark_seen` on the state.
abbrev pub marked : Text → Manager → Manager
marked id m = record m {
  dispatcher = record m.dispatcher { window = push dedup_window id tt m.dispatcher.window };
}

handle_result_seen :
    (n : Notification) (m : Manager)
    → seen_recently n.ref_id m ≡ true
    → handle_result n m ≡ (ok tt, m)
unfolding handle_result ◌>>=◌
handle_result_seen n m h = elim (Bool-cases (is_empty n.ref_id)) [
  | inl e ↦ rw e refl
  | inr e ↦ rw (e, h) refl
]

pub handle_result_new :
    (n : Notification) (m : Manager)
    → is_empty n.ref_id ≡ false
    → seen_recently n.ref_id m ≡ false
    → handle_result n m ≡ store_result n (marked n.ref_id m)
unfolding handle_result mark_seen ◌>>=◌
handle_result_new n m e h = rw (e, h) refl

window-store_result :
    (n : Notification) (m : Manager)
    → (store_result n (marked n.ref_id m)).1.dispatcher.window
      ≡ push dedup_window n.ref_id tt m.dispatcher.window
window-store_result n m =
    ((store_result-HasWindow (push dedup_window n.ref_id tt m.dispatcher.window) n).at
      (marked n.ref_id m) (record { holds = refl })).holds

not_seen : (o : Option (Unit {0})) → has o ≡ false → o ≡ none
not_seen none h = refl
not_seen (some v) h = cc

handle_result_empty :
    (n : Notification) (m : Manager) → is_empty n.ref_id ≡ true → handle_result n m ≡ (ok tt, m)
unfolding handle_result ◌>>=◌
handle_result_empty n m e = rw e refl

seen_after :
    (n : Notification) (m : Manager)
    → IsWindow dedup_window m.dispatcher.window
    → seen_recently n.ref_id m ≡ false
    → seen_recently n.ref_id (store_result n (marked n.ref_id m)).1 ≡ true
unfolding seen_recently
seen_after n m h s = rw window-store_result (
    ap has (
      lookup-push_self dedup_window n.ref_id tt m.dispatcher.window h (omega arith)
        (not_seen (lookup n.ref_id m.dispatcher.window) s)))

-- With a well-formed window, a result that comes again right after the first changes nothing and
-- reports no error, even if it differs in all but its ref_id, and even if the first could not be
-- stored.
pub handle_result_once :
    (n n' : Notification) (m : Manager)
    → IsWindow dedup_window m.dispatcher.window
    → n'.ref_id ≡ n.ref_id
    → handle_result n' (handle_result n m).1 ≡ (ok tt, (handle_result n m).1)
handle_result_once n n' m h same = elim (Bool-cases (is_empty n.ref_id)) [
  | inl e ↦ rw (handle_result_empty n m e) (handle_result_empty n' m (rw same e))
  | inr e ↦ elim (Bool-cases (seen_recently n.ref_id m)) [
    | inl s ↦ rw (handle_result_seen n m s) (handle_result_seen n' m (rw same s))
    | inr s ↦ rw (handle_result_new n m e s) (
        handle_result_seen n' (store_result n (marked n.ref_id m)).1 (rw same (seen_after n m h s)))
  ]
]

-- A well-formed window of the dispatcher stays well formed, whatever a result's notification holds
-- and whatever fails.
pub handle_result-IsWindow :
    (n : Notification) (m : Manager)
    → IsWindow dedup_window m.dispatcher.window
    → IsWindow dedup_window (handle_result n m).1.dispatcher.window
handle_result-IsWindow n m h = elim (Bool-cases (is_empty n.ref_id)) [
  | inl e ↦ rw (handle_result_empty n m e) h
  | inr e ↦ elim (Bool-cases (seen_recently n.ref_id m)) [
    | inl s ↦ rw (handle_result_seen n m s) h
    | inr s ↦
        rw (handle_result_new n m e s, window-store_result n m)
          (push-IsWindow dedup_window n.ref_id tt m.dispatcher.window h (unfold seen_recently in s))
  ]
]
