-- ===== src/Server/Process.antt =====
-- src/uds_server.c: uds_process_request.
use zephyr_uds.Base.{ℕ, List, [], ◌∷◌, ◌++◌, ◌==◌, if◌then◌else◌, Buffer}
use zephyr_uds.Types.{Addressing, physical, functional, Out, nrc}
use zephyr_uds.Types.Nrc
use zephyr_uds.Platform.{Config, Os, App}
use zephyr_uds.Session
use zephyr_uds.Server.State.{Server, perform_all}
use zephyr_uds.Server.Services

-- The services of the switch, in its order, and `other` for its default.
pub data Service : Type 0 where
  session_control ecu_reset clear_dtc read_dtc read_did security_access write_did periodic
        define_dynamic_did io_control routine_control request_download transfer_data transfer_exit
        response_on_event tester_present other :
      Service

-- `switch (sid)`
unfoldable pub service : ℕ → Service
service sid =
    if sid == 0x10
    then session_control
    else if sid == 0x11
    then ecu_reset
    else if sid == 0x14
    then clear_dtc
    else if sid == 0x19
    then read_dtc
    else if sid == 0x22
    then read_did
    else if sid == 0x27
    then security_access
    else if sid == 0x2E
    then write_did
    else if sid == 0x2A
    then periodic
    else if sid == 0x2C
    then define_dynamic_did
    else if sid == 0x2F
    then io_control
    else if sid == 0x31
    then routine_control
    else if sid == 0x34
    then request_download
    else if sid == 0x36
    then transfer_data
    else if sid == 0x37
    then transfer_exit
    else if sid == 0x86
    then response_on_event
    else if sid == 0x3E
    then tester_present
    else other

-- The cases that begin with `if (addr_type == UDS_ADDR_FUNCTIONAL)`.
abbrev pub physical_only :
    {W : Type 0} → Addressing → ℕ → Server W → Server W × List Out → Server W × List Out
physical_only physical sid s handled = handled
physical_only functional sid s handled = (s, nrc sid Nrc.conditions_not_correct ∷ [])

module _ {W : Type 0} (c : Config) (os : Os W) (app : App W) where
  -- The body of the switch.
  unfoldable pub serve : Service → Addressing → Server W → Buffer → ℕ → Server W × List Out
  serve session_control a s req len = Services.session_control c s req len
  serve ecu_reset a s req len = Services.ecu_reset c os app s req len
  serve clear_dtc a s req len = Services.clear_dtc c os app s req len
  serve read_dtc a s req len = Services.read_dtc c os app s req len
  serve read_did a s req len = Services.read_did c os app s req len
  serve security_access a s req len =
      physical_only a (req 0) s (Services.security_access c os app s req len)
  serve write_did a s req len = Services.write_did c os app s req len
  serve periodic a s req len = Services.periodic c os app s req len
  serve define_dynamic_did a s req len = Services.define_dynamic_did c os app s req len
  serve io_control a s req len = physical_only a (req 0) s (Services.io_control c os app s req len)
  serve routine_control a s req len = Services.routine_control c os app s req len
  serve request_download a s req len =
      physical_only a (req 0) s (Services.request_download c os app s req len)
  serve transfer_data a s req len =
      physical_only a (req 0) s (Services.transfer_data c os app s req len)
  serve transfer_exit a s req len =
      physical_only a (req 0) s (Services.transfer_exit c os app s req len)
  serve response_on_event a s req len = Services.response_on_event s req len
  serve tester_present a s req len = Services.tester_present s req len
  serve other a s req len = (s, nrc (req 0) Nrc.service_not_supported ∷ [])

  -- uds_process_request: the calls in their order, with the callbacks performed.
  unfoldable pub process_request : Server W → Buffer → ℕ → Addressing → Server W × List Out
  process_request s req len addr_type =
      if len == 0
      then (s, [])
      else let addressed = record s { current_msg_addressing = addr_type } in
        let (s', calls) = serve (service (req 0)) addr_type addressed req len in
        (s', Session.refresh_timer c s.session ++ perform_all addr_type calls)
