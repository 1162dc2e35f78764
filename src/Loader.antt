-- ===== src/Loader.antt =====
-- wg-ondemand/src/ebpf_loader.rs: loading the classifier, its subnets, attaching and detaching it.
pub mod Fill
pub mod Agreement
pub mod Link
use wg_ondemand.Base.{
  ℕ, zero, suc, ◌-◌, Bool, true, false, ◌||◌, Option, none, some, List, [], ◌∷◌, ◌++◌, Text, leb,
  if◌then◌else◌, length, is_some, Result, ok, err, ◌>>=◌, ◌>>◌, ◌&&◌, or_fail, ensure,
  command_not_run, no_such_interface, no_program, no_map, attach_failed, detach_failed,
  unreadable_program,
}
use wg_ondemand.Base.Str.{codes, has}
use wg_ondemand.Os.{Os, Io, Output, output, then_io}
use wg_ondemand.Config.{parse_cidr}
use wg_ondemand.Ebpf.Slots.{SubnetMap}
use wg_ondemand.Ebpf.{empty_sentinel}

module _ (S : SubnetMap) where
  -- The first loop of `load`, at slot `i`: it stops at sixteen.
  unfoldable pub set_subnets : ℕ → List Text → S.Map → Result S.Map
  set_subnets i [] map = ok map
  set_subnets i (cidr ∷ cidrs) map =
      if leb 16 i
      then ok map
      else do pair ← parse_cidr cidr; map' ← S.set map i pair; set_subnets (suc i) cidrs map'

  -- The second loop: `for i in subnets.len()..16`, with the rounds left.
  unfoldable pub clear_slots : ℕ → ℕ → S.Map → Result S.Map
  clear_slots i zero map = ok map
  clear_slots i (suc rounds) map = do
    map' ← S.set map i (empty_sentinel, empty_sentinel)
    clear_slots (suc i) rounds map'

  unfoldable pub configure : List Text → S.Map → Result S.Map
  configure subnets map = do
    map' ← set_subnets 0 subnets map
    clear_slots (length subnets) (16 - length subnets) map'

-- What the manager takes from `aya`: the object, its program, the links and the ring buffer.
pub record Aya (S : SubnetMap) : Type 1 where
  pub Bpf : Type 0
  pub LinkId : Type 0
  pub RingBuf : Type 0
  -- `Bpf::load` of the embedded bytes.
  pub load_bytes : Option Bpf
  -- `map_mut("SUBNETS")`, as an array of pairs.
  pub subnets_map : Bpf → Option S.Map
  -- `program_mut("wg_ondemand_tc")`, as a classifier; and its `load`.
  pub has_program : Bpf → Bool
  pub load_program : Bpf → Option Bpf
  -- `program.attach(interface, Egress)` and `program.detach(link)`.
  pub attach_to : Bpf → Text → Bpf × Option LinkId
  pub detach_link : Bpf → LinkId → Bpf × Bool
  -- `take_map("EVENTS")`, as a ring buffer.
  pub take_events : Bpf → Bpf × Option RingBuf

module _ {S : SubnetMap} (A : Aya S) where
  pub record EbpfManager : Type 0 where
    pub ebpf : A.Bpf
    pub interface : Text
    pub link_id : Option A.LinkId
    pub ringbuf : Option A.RingBuf

  -- The ring buffer is taken once, at the first attachment.
  cache_ringbuf : EbpfManager → EbpfManager × Result (Unit {0})
  cache_ringbuf m = elim m.ringbuf [
    | some rb ↦ (m, ok tt)
    | none ↦
        let (ebpf', taken) = A.take_events m.ebpf in
        elim taken [
          | none ↦ (record m { ebpf = ebpf' }, err no_map)
          | some rb ↦ (record m { ebpf = ebpf'; ringbuf = some rb }, ok tt)
        ]
  ]

  attach_program : EbpfManager → EbpfManager × Result (Unit {0})
  attach_program m =
      let (ebpf', link) = A.attach_to m.ebpf m.interface in
      elim link [
        | none ↦ (record m { ebpf = ebpf' }, err attach_failed)
        | some id ↦ cache_ringbuf (record m { ebpf = ebpf'; link_id = some id })
      ]

  -- `attach`: the new manager, and the result.
  unfoldable pub attach : EbpfManager → EbpfManager × Result (Unit {0})
  unfolding attach_program cache_ringbuf
  attach m =
      if is_some m.link_id
      then (m, ok tt)
      else if A.has_program m.ebpf
      then attach_program m
      else (m, err no_program)

  detach_program : EbpfManager → A.LinkId → EbpfManager × Result (Unit {0})
  detach_program m id =
      let (ebpf', done) = A.detach_link m.ebpf id in
      (record m { ebpf = ebpf' }, if done then ok tt else err detach_failed)

  -- `detach`: `link_id.take()` comes first, whatever happens then.
  unfoldable pub detach : EbpfManager → EbpfManager × Result (Unit {0})
  unfolding detach_program
  detach m = elim m.link_id [
    | none ↦ (m, ok tt)
    | some id ↦
        let taken = record m { link_id = none } in
        if A.has_program m.ebpf then detach_program taken id else (taken, err no_program)
  ]

  unfoldable pub poll_events : EbpfManager → Option A.RingBuf
  poll_events m = m.ringbuf

  unfoldable pub is_attached : EbpfManager → Bool
  is_attached m = is_some m.link_id

-- The part of `load` behind the clean-up: the object, its map, its program.
load_object : {S : SubnetMap} (A : Aya S) → Text → List Text → Result (EbpfManager A × S.Map)
load_object {S} A interface subnets = do
  ebpf ← or_fail A.load_bytes unreadable_program
  map ← or_fail (A.subnets_map ebpf) no_map
  map' ← configure S subnets map
  ensure (A.has_program ebpf) no_program
  ebpf' ← or_fail (A.load_program ebpf) no_program
  ok (record { ebpf = ebpf'; interface = interface; link_id = none; ringbuf = none }, map')

-- The `tc` calls on the interface, over the system's state.
module _ (O : Os) (path_exists : Text → Bool) where
  unfoldable pub validate_interface_exists : Text → Result (Unit {0})
  validate_interface_exists interface =
      if path_exists (codes "/sys/class/net/" ++ interface) then ok tt else err no_such_interface

  abbrev tc_show : Text → List Text
  tc_show interface =
      codes "tc" ∷ codes "filter" ∷ codes "show" ∷ codes "dev" ∷ interface ∷ codes "egress" ∷ []

  abbrev tc_del : Text → List Text
  tc_del interface =
      codes "tc" ∷ codes "filter" ∷ codes "del" ∷ codes "dev" ∷ interface ∷ codes "egress" ∷ []

  -- The result of the deletion is only logged.
  unfoldable pub cleanup_stale_ebpf : Text → Io O (Unit {0})
  cleanup_stale_ebpf interface = then_io O (output O (tc_show interface) command_not_run) λ out.
      if out.success && (has (codes "direct-action") out.stdout || has (codes "bpf") out.stdout)
      then then_io O (output O (tc_del interface) command_not_run) (λ status s. (s, ok tt))
      else λ s. (s, ok tt)

  -- `EbpfManager::load`: the manager, with the SUBNETS map that it has written.
  unfoldable pub load :
      {S : SubnetMap} (A : Aya S) → Text → List Text → Io O (EbpfManager A × S.Map)
  unfolding validate_interface_exists cleanup_stale_ebpf load_object
  load {S} A interface subnets s = elim (validate_interface_exists interface) [
    | err e ↦ (s, err e)
    | ok _ ↦
        then_io O (cleanup_stale_ebpf interface) (λ _ s'. (s', load_object A interface subnets)) s
  ]
