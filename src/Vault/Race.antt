-- ===== src/Vault/Race.antt =====
-- vault.go: goroutines with several sessions of one `Vault`. The sessions share the document, and
-- each has a mutex of its own.
pub mod Steps
pub mod LastKey
pub mod Quiet
pub mod Enrolling
pub mod OneSlot
pub mod Reading
use touchvault.Base.{ℕ, Bytes, Option, none, some, List, [], nth}
use touchvault.Effects.Programs.{Prog, done, tick}
use touchvault.Platform.{Platform}
use touchvault.Threads.{System, Event, begin, turns}
use touchvault.Vault.Session.{Machine}
use touchvault.Vault.Shared.{Shared, set_nth, machine}
use touchvault.Vault.Goroutines.{Request, Reply, program}

module _ (P : Platform) where
  -- The data key of a session. One that was not handed out is taken as locked.
  unfoldable pub data_key_of : ℕ → Shared P → Bytes
  data_key_of n st = elim (nth n st.data_keys) [ none ↦ [] | some data_key ↦ data_key ]

  abbrev pub machine_of : ℕ → Shared P → Machine P
  machine_of n st = machine P st (data_key_of n st)

  -- What a step of a session has done, for the vault with all of its sessions.
  abbrev pub put_back : ℕ → Machine P → Shared P → Shared P
  put_back n m st = record st {
    doc = m.session.doc;
    data_keys = set_nth n m.session.data_key st.data_keys;
    world = m.world;
  }

  -- A method of one of the sessions, step by step.
  unfoldable pub in_session : {A : Type 0} → ℕ → Prog (Machine P) A → Prog (Shared P) A
  in_session n (done r) = done r
  in_session n (tick f k) =
      tick (λ st. put_back n (f (machine_of n st)) st) (λ st. in_session n (k (machine_of n st)))

  -- A request to a session, by the number of the session, which is the number of its mutex too.
  abbrev pub mutex : ℕ × Request P → ℕ
  mutex (n, q) = n

  abbrev pub method : ℕ × Request P → Prog (Shared P) Reply
  method (n, q) = in_session n (program P q)

  -- Goroutines with the sessions of one vault, after a schedule of their steps.
  unfoldable pub crews :
      List (Event (ℕ × Request P)) → Shared P → System (Shared P) (ℕ × Request P) Reply
  unfolding turns
  crews es st = turns mutex method es (begin st)
