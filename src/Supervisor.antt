-- ===== src/Supervisor.antt =====
-- The loop of crates/lodger-virt/src/supervisor.rs that keeps Lodger connected: `supervise` and
-- `session` as a step relation. A step is one write that another task can see, or one call of libvirt;
-- `Inventory` has the load and the handling of an event. The wait between two attempts is one step.
pub mod Counting
pub mod Laws
mod Tests
use lodger.Host.{VirtError, Io}
use lodger.Inventory.{InventoryApi, Shared, Received, goes_on, ends_for, reload, receive}
use lodger.Prelude.{ℕ, Bool, true, false, List, [], ok, err, ◌≡◌}

-- `ConnState`.
pub data ConnState : Type 0 where
  connecting : ConnState
  connected : ConnState
  disconnected : (error : List ℕ) → ConnState

-- Where the task stands: before `Virt::open`, before the first load, before `*virt = Some`, before
-- `Connected` is sent, in the loop, and after the session: before `*virt = None`, before
-- `Disconnected` is sent, and in the wait.
pub data Point : Type 0 where
  opening : Point
  loading : Point
  installing : Point
  reporting : Point
  following : Point
  clearing : (error : List ℕ) → Point
  disconnecting : (error : List ℕ) → Point
  waiting : Point

-- `Shared`, with whether `virt` is `Some`, and the point.
pub record Supervisor (Vm Pool Network : Type 0) : Type 0 where
  pub shared : Shared Vm Pool Network
  pub virt : Bool
  pub state : ConnState
  pub point : Point

-- `start_with`.
unfoldable pub start_with : {Vm Pool Network : Type 0} → Supervisor Vm Pool Network
start_with = record {
  shared = record {
    inventory = record { vms = []; pools = []; networks = [] };
    reloads = 0;
    sent = [];
  };
  virt = false;
  state = connecting;
  point = opening;
}

module _ {S Vm Pool Network : Type 0} (api : InventoryApi S Vm Pool Network)
    (message : VirtError → List ℕ) where
  -- Each call reads libvirt in some state `h`. `message` is `to_string` of an error.
  pub data Step : Supervisor Vm Pool Network → Supervisor Vm Pool Network → Type 0 where
    opens :
        (s : Supervisor Vm Pool Network) → s.point ≡ opening → Step s (record s { point = loading })
    opens_badly :
        (s : Supervisor Vm Pool Network) (error : List ℕ)
        → s.point ≡ opening
        → Step s (record s { point = clearing error })
    loads :
        (s : Supervisor Vm Pool Network) (h : S) (loaded : Shared Vm Pool Network)
        → s.point ≡ loading
        → (reload api s.shared h).1 ≡ ok loaded
        → Step s (record s { shared = loaded; point = installing })
    loads_badly :
        (s : Supervisor Vm Pool Network) (h : S) (e : VirtError)
        → s.point ≡ loading
        → (reload api s.shared h).1 ≡ err e
        → Step s (record s { point = clearing (message e) })
    installs :
        (s : Supervisor Vm Pool Network)
        → s.point ≡ installing
        → Step s (record s { virt = true; point = reporting })
    reports :
        (s : Supervisor Vm Pool Network)
        → s.point ≡ reporting
        → Step s (record s { state = connected; point = following })
    receives :
        (s : Supervisor Vm Pool Network) (h : S) (r : Received) (after : Shared Vm Pool Network)
        → s.point ≡ following
        → (receive api r s.shared h).1 ≡ ok (after, goes_on)
        → Step s (record s { shared = after })
    ends :
        (s : Supervisor Vm Pool Network) (h : S) (r : Received) (after : Shared Vm Pool Network)
        (why : List ℕ)
        → s.point ≡ following
        → (receive api r s.shared h).1 ≡ ok (after, ends_for why)
        → Step s (record s { shared = after; point = clearing why })
    receives_badly :
        (s : Supervisor Vm Pool Network) (h : S) (r : Received) (e : VirtError)
        → s.point ≡ following
        → (receive api r s.shared h).1 ≡ err e
        → Step s (record s { point = clearing (message e) })
    clears :
        (s : Supervisor Vm Pool Network) (error : List ℕ)
        → s.point ≡ clearing error
        → Step s (record s { virt = false; point = disconnecting error })
    disconnects :
        (s : Supervisor Vm Pool Network) (error : List ℕ)
        → s.point ≡ disconnecting error
        → Step s (record s { state = disconnected error; point = waiting })
    wakes :
        (s : Supervisor Vm Pool Network)
        → s.point ≡ waiting
        → Step s (record s { state = connecting; point = opening })

  -- The states that the task can reach from its start.
  pub data Reachable : Supervisor Vm Pool Network → Type 0 where
    starts : Reachable start_with
    then : (s t : Supervisor Vm Pool Network) → Reachable s → Step s t → Reachable t
