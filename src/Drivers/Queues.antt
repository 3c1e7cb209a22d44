-- ===== src/Drivers/Queues.antt =====
-- Making and removing queues: `sys_mq_init`, `sys_mq_kill` and `sys_mq_reset` of
-- BLE_Scanner/Drivers/Msg_Def.c. `msgget` and `msgctl` belong to the system: they are the fields of
-- an interface, with the laws that their manual states.
use ble_parking_gate_way.Prelude.{
  ℕ, ℕ_discrete, ◌≡◌, ◌≢◌, refl, ◌∙◌, Bool-cases, ◌⊎◌, inl, inr, Bool, true, false, Option, none,
  some, minus_one, if◌then◌else◌,
}
use ble_parking_gate_way.Drivers.{is_negative}

-- `IPC_PRIVATE`
abbrev pub ipc_private : ℕ
ipc_private = 0

-- The system: `queue_of key k` is the queue of a key, if there is one.
pub record System : Type 1 where
  pub Kernel : Type 0
  pub queue_of : ℕ → Kernel → Option ℕ
  -- `msgget(key, 0)` and `msgget(key, IPC_CREAT | 0666)`
  pub msgget : ℕ → Bool → Kernel → ℕ × Kernel
  -- `msgctl(qid, IPC_RMID, NULL)`
  pub msgctl_rmid : ℕ → Kernel → Kernel
  pub get_existing :
      (key qid : ℕ) (create : Bool) (k : Kernel)
      → queue_of key k ≡ some qid
      → (msgget key create k ≡ (qid, k)) × (is_negative qid ≡ false)
  pub get_failed :
      (key : ℕ) (create : Bool) (k : Kernel)
      → is_negative (msgget key create k).0 ≡ true
      → (msgget key create k).0 ≡ minus_one
  pub get_missing :
      (key : ℕ) (k : Kernel)
      → key ≢ ipc_private
      → queue_of key k ≡ none
      → msgget key false k ≡ (minus_one, k)
  -- This key has no queue, and `msgget` makes one that belongs to no key.
  pub get_private :
      (other : ℕ) (create : Bool) (k : Kernel)
      → queue_of other (msgget ipc_private create k).1 ≡ queue_of other k
  pub private_missing : (k : Kernel) → queue_of ipc_private k ≡ none
  pub rmid_unknown :
      (key : ℕ) (k : Kernel) → queue_of key (msgctl_rmid minus_one k) ≡ queue_of key k
  pub rmid_known :
      (key qid : ℕ) (k : Kernel)
      → queue_of key k ≡ some qid
      → queue_of key (msgctl_rmid qid k) ≡ none

found : (o : Option ℕ) → (o ≡ none) ⊎ ((qid : ℕ) × (o ≡ some qid))
found none = inl refl
found (some qid) = inr (qid, refl)

module _ (sys : System) where
  unfoldable pub sys_mq_init : ℕ → sys.Kernel → ℕ × sys.Kernel
  sys_mq_init key k =
      let (qid, k') = sys.msgget key false k in
      if is_negative qid then sys.msgget key true k' else (qid, k')

  abbrev pub sys_mq_kill : ℕ → sys.Kernel → ℕ × sys.Kernel
  sys_mq_kill qid k = (0, sys.msgctl_rmid qid k)

  -- The function ends without the value that its type promises.
  unfoldable pub sys_mq_reset : ℕ → sys.Kernel → sys.Kernel
  sys_mq_reset key k =
      let (qid, k') = sys.msgget key false k in
      if is_negative qid then sys.msgctl_rmid qid k' else k'

  -- Where the system has room for a queue, creating it makes it the queue of its key.
  abbrev pub HasRoom : ℕ → sys.Kernel → Type 0
  HasRoom key k = let (qid, k') = sys.msgget key true k in sys.queue_of key k' ≡ some qid

  module _ (key : ℕ) (k : sys.Kernel) where
    init_existing : (qid : ℕ) → sys.queue_of key k ≡ some qid → sys_mq_init key k ≡ (qid, k)
    unfolding sys_mq_init
    init_existing qid h =
        let (got, good) = sys.get_existing key qid false k h in rw (got, good) refl

    init_missing :
        key ≢ ipc_private → sys.queue_of key k ≡ none → sys_mq_init key k ≡ sys.msgget key true k
    unfolding sys_mq_init
    init_missing other h = rw (sys.get_missing key k other h) refl

    HasRoom-public : HasRoom key k → key ≢ ipc_private
    HasRoom-public room same =
        let gone : sys.queue_of key (sys.msgget key true k).1 ≡ none =
          rw same (sys.private_missing _) in
        cc

    -- The queue that `sys_mq_init` returns is the queue of its key from then on.
    init_queue_of :
        HasRoom key k → (let (qid, k') = sys_mq_init key k in sys.queue_of key k' ≡ some qid)
    init_queue_of room = elim (found (sys.queue_of key k)) [
      | inl h ↦ rw (init_missing (HasRoom-public room) h) room
      | inr (qid, h) ↦ rw (init_existing qid h) h
    ]

  -- Whoever calls `sys_mq_init` with a key after another has, gets the same queue, and nothing changes
  -- by it, where the system has room for a queue at the first call.
  pub sys_mq_init_again :
      (key : ℕ) (k : sys.Kernel)
      → HasRoom key k
      → (let (qid, k') = sys_mq_init key k in sys_mq_init key k' ≡ (qid, k'))
  sys_mq_init_again key k room =
      let (qid, k') = sys_mq_init key k in init_existing key k' qid (init_queue_of key k room)

  -- `sys_mq_kill` undoes `sys_mq_init`: on the queue that it returned, it leaves no queue of the key.
  pub sys_mq_kill_undoes :
      (key : ℕ) (k : sys.Kernel)
      → HasRoom key k
      → (let (qid, k') = sys_mq_init key k in sys.queue_of key (sys_mq_kill qid k').1 ≡ none)
  sys_mq_kill_undoes key k room =
      let (qid, k') = sys_mq_init key k in sys.rmid_known key qid k' (init_queue_of key k room)

  reset_private :
      (other : ℕ) (k : sys.Kernel)
      → sys.queue_of other (sys_mq_reset ipc_private k) ≡ sys.queue_of other k
  unfolding sys_mq_reset
  reset_private other k =
      let (qid, k') = sys.msgget ipc_private false k in
      let kept = sys.get_private other false k in
      elim (Bool-cases (is_negative qid)) [
        | inl failed ↦
            rw failed
              (rw (sys.get_failed ipc_private false k failed) (sys.rmid_unknown other k' ∙ kept))
        | inr made ↦ rw made kept
      ]

  -- `sys_mq_reset` removes nothing: whatever the key, each key has the queue that it had. The
  -- function removes a queue only where there is none.
  pub sys_mq_reset_keeps :
      (key other : ℕ) (k : sys.Kernel)
      → sys.queue_of other (sys_mq_reset key k) ≡ sys.queue_of other k
  unfolding sys_mq_reset
  sys_mq_reset_keeps key other k = elim (found (sys.queue_of key k)) [
    | inl h ↦ elim (ℕ_discrete key ipc_private) [
      | yes same ↦ rw same (reset_private other k)
      | no public ↦ rw (sys.get_missing key k public h) (sys.rmid_unknown other k)
    ]
    | inr (qid, h) ↦ let (got, good) = sys.get_existing key qid false k h in rw (got, good) refl
  ]
