-- ===== src/Server/Quiet.antt =====
-- src/uds_server.c: what of the world the services, the work items and the sampling thread leave
-- alone, if the application's hooks do.
use zephyr_uds.Base.{
  inl, inr, Option-cases, ◌-◌, be16, be24, slice, ℕ, zero, suc, ◌≡◌, ◌≢◌, refl, ◌∙◌, List, Buffer,
  arith,
}
use zephyr_uds.Types.{Addressing, physical}
use zephyr_uds.Platform.{Config, Os, App, Fs}
use zephyr_uds.Flash
use zephyr_uds.Routine
use zephyr_uds.Routine.{Routine}
use zephyr_uds.ClearDtc
use zephyr_uds.ClearDtc.{ClearDtc}
use zephyr_uds.ReadDtc
use zephyr_uds.DynamicDid
use zephyr_uds.DynamicDid.{DynamicDidMap, Filling}
use zephyr_uds.Periodic
use zephyr_uds.Periodic.{Periodic}
use zephyr_uds.Reset
use zephyr_uds.WriteDid
use zephyr_uds.IoControl
use zephyr_uds.Server.State.{Server}
use zephyr_uds.Server.Services
use zephyr_uds.Server.Process.{
  Service, session_control, security_access, clear_dtc, read_dtc, read_did, io_control,
  request_download, transfer_data, transfer_exit, serve,
}

-- A view of the world, of a value at each index.
module _ {W I A : Type 0} (view : W → I → A) where
  -- The second world looks as the first.
  abbrev pub Same : W → W → Type 0
  Same w w' = (i : I) → view w' i ≡ view w i

  module _ (os : Os W) (app : App W) where
    -- The hooks that have no business with the view, and the start of the CAN controller, leave it
    -- alone. The two hooks of a download are not among them.
    pub record Quiet : Type 0 where
      pub can_start : (w : W) → Same w (os.can_start w).0
      pub read_did : (w : W) (did max_len : ℕ) → Same w (app.read_did w did max_len).0
      pub write_did : (w : W) (did : ℕ) (bytes : List ℕ) → Same w (app.write_did w did bytes).0
      pub io_control :
          (w : W) (did control_param : ℕ) (bytes : List ℕ)
          → Same w (app.io_control w did control_param bytes).0
      pub routine_start : (w : W) (routine_id : ℕ) → Same w (app.routine_start w routine_id).0
      pub request_results :
          (w : W) (routine_id : ℕ) → Same w (app.routine_request_results w routine_id).0
      pub freeze_frame :
          (w : W) (dtc record_num max_len : ℕ)
          → Same w (app.get_freeze_frame w dtc record_num max_len).0
      pub periodic_did : (w : W) (did : ℕ) → Same w (app.get_periodic_did w did).0
      pub clear_dtcs :
          (w : W) (fs : Fs) (dtc_group : ℕ) → Same w (app.clear_persistent_dtcs w fs dtc_group).0

    copy_entries-Same :
        Quiet
        → (base : ℕ) (m : DynamicDidMap) (rounds i : ℕ) (t : Filling W)
        → Same t.world (DynamicDid.copy_entries app base m rounds i t).world
    unfolding DynamicDid.copy_entries DynamicDid.copy_entry
    copy_entries-Same laws base m zero i t x = refl
    copy_entries-Same laws base m (suc rounds) i t x =
        let t' = DynamicDid.copy_entry app base (m.entries i) t in
        copy_entries-Same laws base m rounds (suc i) t' x
        ∙ ground (arith, laws.read_did t.world (m.entries i).source_did 64 x)

    sample_all-Same :
        Quiet
        → (rounds i : ℕ) (w : W) (p : Periodic) → Same w (Periodic.sample_all app rounds i w p).0
    unfolding Periodic.sample_all
    sample_all-Same laws zero i w p x = refl
    sample_all-Same laws (suc rounds) i w p x =
        let (w', p', sent) = Periodic.sample app i w p in
        sample_all-Same laws rounds (suc i) w' p' x
        ∙ unfold Periodic.sample in laws.periodic_did w (p.active_periodic_dids i) x

    pub thread_round-Same :
        Quiet → (w : W) (p : Periodic) → Same w (Periodic.thread_round app w p).0
    unfolding Periodic.thread_round
    thread_round-Same laws w p x = ground (arith, sample_all-Same laws p.active_did_count 0 w p x)

    pub clear_worker-Same : Quiet → (w : W) (d : ClearDtc) → Same w (ClearDtc.worker app w d).0
    unfolding ClearDtc.worker
    clear_worker-Same laws w d x = elim (Option-cases (app.get_nvs_context w)) [
      | inl e ↦ ground arith
      | inr (fs, e) ↦ ground (arith, laws.clear_dtcs w fs d.target_dtc_group x)
    ]

    pub routine_worker-Same : Quiet → (w : W) (r : Routine) → Same w (Routine.worker app w r).0
    unfolding Routine.worker
    routine_worker-Same laws w r x = ground (arith, laws.routine_start w r.active_routine_id x)

    module _ (c : Config) where
      read_did-Same :
          Quiet
          → (s : Server W) (req : Buffer) (len : ℕ)
          → Same s.world (Services.read_did c os app s req len).0.world
      unfolding Services.read_did Services.answer_read DynamicDid.read_payload
      read_did-Same laws s req len x =
          let did = be16 (req 1) (req 2) in
          let start : Filling W = record {
            world = s.world;
            source = os.stack s.world;
            filled = s.tx_buf;
            total_len = 0;
          } in
          ground (
            arith,
            copy_entries-Same laws 3 s.dyn_map s.dyn_map.entry_count 0 start x,
            laws.read_did s.world did (c.buff_size - 3) x,
          )

      -- No service but SecurityAccess and the first two of a download changes what is viewed.
      pub serve-Same :
          Quiet
          → (v : Service) (a : Addressing) (s : Server W) (req : Buffer) (len : ℕ)
          → v ≢ security_access
          → v ≢ request_download
          → v ≢ transfer_data
          → Same s.world (serve c os app v a s req len).0.world
      unfolding serve Services.clear_dtc Services.periodic Services.define_dynamic_did
      serve-Same laws session_control a s req len h k l x =
          unfold Services.session_control in ground arith
      serve-Same laws Service.ecu_reset a s req len h k l x =
          unfold Services.ecu_reset Reset.handle in ground arith
      serve-Same laws clear_dtc a s req len h k l x = refl
      serve-Same laws read_dtc a s req len h k l x =
          unfold Services.read_dtc ReadDtc.handle ReadDtc.by_status_mask ReadDtc.stored_data in
          ground (
            arith,
            laws.freeze_frame s.world (be24 (req 2) (req 3) (req 4)) (req 5) (c.buff_size - 5) x,
          )
      serve-Same laws read_did a s req len h k l x = read_did-Same laws s req len x
      serve-Same laws security_access a s req len h k l x = absurd (h refl)
      serve-Same laws request_download a s req len h k l x = absurd (k refl)
      serve-Same laws transfer_data a s req len h k l x = absurd (l refl)
      serve-Same laws Service.write_did a s req len h k l x =
          unfold Services.write_did WriteDid.handle in
          ground (arith, laws.write_did s.world (be16 (req 1) (req 2)) (slice 3 (len - 3) req) x)
      serve-Same laws Service.periodic a s req len h k l x = refl
      serve-Same laws Service.define_dynamic_did a s req len h k l x = refl
      serve-Same laws io_control physical s req len h k l x =
          unfold Services.io_control IoControl.handle in
          ground (
            arith,
            laws.io_control s.world (be16 (req 1) (req 2)) (req 3) (slice 4 (len - 4) req) x,
          )
      serve-Same laws Service.routine_control a s req len h k l x =
          unfold Services.routine_control Routine.handle_control Routine.start
            Routine.request_results in
          ground (arith, laws.request_results s.world (be16 (req 2) (req 3)) x)
      serve-Same laws transfer_exit physical s req len h k l x =
          unfold Services.transfer_exit Flash.transfer_exit in ground arith
      serve-Same laws Service.response_on_event a s req len h k l x =
          unfold Services.response_on_event in ground arith
      serve-Same laws Service.tester_present a s req len h k l x =
          unfold Services.tester_present in ground arith
      serve-Same laws _ a s req len h k l x = refl
