-- ===== src/Reactor/Demultiplexer/Tests.antt =====
-- Epoll as a table, and one event that is watched.
use libeva.Base.{
  subst, ap, length, List, ◌≤◌, ℕ, zero, suc, ◌≡◌, refl, Bool, true, false, Option, none, some, [],
  ◌∷◌, arith,
}
use libeva.Reactor.Event.{Event, is_new, added}
use libeva.Reactor.Demultiplexer.{
  Epoll, Op, ctl_add, ctl_mod, ctl_del, Demultiplexer, put, enable_reading,
}
use libeva.Reactor.Demultiplexer.Registered.{IsRegistered}
use libeva.Reactor.Demultiplexer.Wait.{
  WaitResult, failed, active, IsReport, all_told, told, EpollWait, demultiplex,
}
use libeva.Reactor.Demultiplexer.Wait.Reports.{Demultiplexed, demultiplex-Reports}
use libeva.Reactor.Event
use libeva.Reactor.Demultiplexer.{init, update, register_event, handle_new_event, register_inner}
use libeva.Reactor.Demultiplexer.Life.{new_event, Reach, begun, later, made, reads}
use libeva.Reactor.Demultiplexer.Life.Serves.{Serves, Reach-Serves}

-- An interest list as a function, which is what epoll keeps.
abbrev Table : Type 0
Table = ℕ → Option (ℕ × ℕ)

abbrev table_ctl : Table → Op → ℕ → ℕ × ℕ → Table × Bool
table_ctl k ctl_add fd e = elim (k fd) [ none ↦ (put k fd (some e), true) | some old ↦ (k, false) ]
table_ctl k ctl_mod fd e = elim (k fd) [ none ↦ (k, false) | some old ↦ (put k fd (some e), true) ]
table_ctl k ctl_del fd e = elim (k fd) [ none ↦ (k, false) | some old ↦ (put k fd none, true) ]

abbrev table_epoll : Epoll Table
table_epoll = record {
  interest = λ k. k;
  ctl = table_ctl;
  add_lem = λ k fd e h. rw (h, table_ctl) (refl, λ j. refl);
  mod_lem = λ k fd e old h. rw (h, table_ctl) (refl, λ j. refl);
  del_lem = λ k fd e old h. rw (h, table_ctl) (refl, λ j. refl);
}

-- Epoll with data to read at the file descriptor 5, and nothing else.
abbrev report_of : Option (ℕ × ℕ) → List (ℕ × ℕ)
report_of none = []
report_of (some e) = (1, e.1) ∷ []

abbrev table_wait : Table → ℕ → ℕ → Table × WaitResult
table_wait k n t = (k, elim n [ zero ↦ failed | suc m ↦ active (report_of (k 5)) ])

abbrev active_of : WaitResult → List (ℕ × ℕ)
active_of failed = []
active_of (active es) = es

report_of-IsReport :
    (k : Table) (n : ℕ) (o : Option (ℕ × ℕ))
    → k 5 ≡ o
    → IsReport k (report_of o) × (length (report_of o) ≤ suc n)
report_of-IsReport k n none e = (all_told, omega arith)
report_of-IsReport k n (some (flags, p)) e = (told 5 flags p 1 e all_told, omega arith)

table_wait-reports :
    (k : Table) (n t : ℕ) (es : List (ℕ × ℕ))
    → (table_wait k n t).1 ≡ active es
    → IsReport (table_wait k n t).0 es × (length es ≤ n)
table_wait-reports k zero t es e = cc
table_wait-reports k (suc n) t es e =
    subst (λ x. IsReport k x × (length x ≤ suc n)) (ap active_of e)
      (report_of-IsReport k n (k 5) refl)

abbrev table_epoll_wait : EpollWait table_epoll
table_epoll_wait = record {
  wait = table_wait;
  wait_keeps = λ k n t j. refl;
  wait_reports = table_wait-reports;
}

abbrev made_five : Demultiplexer Table
made_five = new_event (init (λ j. none)) 0 5

-- One event, which is watched for reading.
abbrev watching : Demultiplexer Table
watching = record {
  kernel = put (λ j. none) 5 (some (3, 0));
  event_map = put (λ j. none) 5 (some 0);
  objects =
      put made_five.objects 0 (some (record { fd = 5; state = added; events = 3; revents = 0 }));
  event_list = 16;
}

watching-Reach : Reach table_epoll_wait watching
unfolding init Event.init enable_reading update register_event handle_new_event register_inner
watching-Reach =
    later (later (begun (λ j. none) (λ j. refl)) (made 0 5 refl (λ q a e. cc)))
      (reads 0 (Event.init 5) refl refl)

Reach-Serves_example : IsRegistered table_epoll watching × Serves table_epoll_wait watching
Reach-Serves_example = Reach-Serves watching-Reach

demultiplex-Reports_example :
    Demultiplexed table_epoll_wait ((1, 0) ∷ []) (demultiplex table_epoll_wait watching 10000)
demultiplex-Reports_example =
    demultiplex-Reports table_epoll_wait watching 10000 (Reach-Serves watching-Reach).0
