-- ===== src/Cli/Signal/Delivery.antt =====
-- What `recv` reports of the signals that have come in.
use keyring_rs.Base.{◌≡◌, ◌≢◌, Bool, true, false, List, All, Option, none, some}
use keyring_rs.Cli.Signal.{
  SignalKind, user_defined1, interrupt, terminate, SignalEvent, Streams, Signal, branch, event,
  turn,
}

-- `pending g w` says that a notification waits in the stream `g`. A poll is ready just then, and takes
-- the notification of its own stream only.
pub record StreamLaws {W G E : Type 0} (os : Streams W G E) (pending : G → W → Bool) : Type 0 where
  pub ready : (g : G) (w : W) → (os.poll g w).0 ≡ pending g w
  pub idle : (g h : G) (w : W) → pending g w ≡ false → pending h (os.poll g w).1 ≡ pending h w
  pub others : (g h : G) (w : W) → g ≢ h → pending h (os.poll g w).1 ≡ pending h w

module _ {W G E : Type 0} (os : Streams W G E) (pending : G → W → Bool) (s : Signal G) where
  -- A poll over some branches reports the event of one of which a notification was pending, and leaves
  -- the other streams as they were; or none was pending.
  pub data Delivery (ks : List SignalKind) (w : W) (r : Option SignalEvent × W) : Type 0 where
    delivered :
        (k : SignalKind)
        → r.0 ≡ some (event k)
        → pending (branch s k) w ≡ true
        → ((h : G) → branch s k ≢ h → pending h r.1 ≡ pending h w)
        → Delivery ks w r
    nothing_pending :
        r.0 ≡ none
        → All (λ k. pending (branch s k) w ≡ false) ks
        → ((h : G) → pending h r.1 ≡ pending h w)
        → Delivery ks w r

  module _ (laws : StreamLaws os pending) where
    every :
        (P : SignalKind → Type 0) (first : SignalKind) → All P (turn first) → (k : SignalKind) → P k
    every P user_defined1 t user_defined1 = t.0
    every P user_defined1 t interrupt = t.1.0
    every P user_defined1 t terminate = t.1.1.0
    every P interrupt t user_defined1 = t.1.1.0
    every P interrupt t interrupt = t.0
    every P interrupt t terminate = t.1.0
    every P terminate t user_defined1 = t.1.0
    every P terminate t interrupt = t.1.1.0
    every P terminate t terminate = t.0

    answers :
        (first : SignalKind) (w : W) (r : Option SignalEvent × W)
        → Delivery (turn first) w r
        → ((e : SignalEvent)
            → r.0 ≡ some e
            → (k : SignalKind) × (event k ≡ e)
              × (pending (branch s k) w ≡ true)
              × ((h : G) → branch s k ≢ h → pending h r.1 ≡ pending h w))
          × ((k : SignalKind) → pending (branch s k) w ≡ true → r.0 ≢ none)
    answers first w r (delivered k q p others) =
        (λ e h. (k, cc (q, h), p, others), λ j t h. cc (q, h))
    answers first w r (nothing_pending q none_of keeps) = (
      λ e h. cc (q, h),
      λ k t h. cc (t, every (λ k. pending (branch s k) w ≡ false) first none_of k),
    )
