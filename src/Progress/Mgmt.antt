-- ===== src/Progress/Mgmt.antt =====
-- The management commands and callbacks are answered.
use bluepy.Protocol.{err_no_mgmt, resp_error, err_bad_param, resp_mgmt}
use bluepy.Mgmt.Modes.{mode_value, set_mode, mode_command, send_mode}
use bluepy.Mgmt.Scan.{scan, cmd_scanend, scan_cb, cmd_scan}
use bluepy.Progress.Protocol.{
  Runs-resp_mgmt, sending, Replies-resp_mgmt_err, Replies-resp_mgmt, Replies-resp_error, responding,
}
use bluepy.Progress.Replies.{
  Replies-if, Ran-then, Replied-then, Replied, Replies-then, Replies→Runs, Replies-first,
  Replies-get, Replies-on_option, replying, Replies,
}
use bluepy.Progress.Runs.{Runs->>, Runs-skip, Runs-pure, Runs-if, running, Runs}
use bluepy.Common.{
  none, arg, if◌then◌else◌, Option, arith, inl, [], refl, ◌∷◌, ◌≡◌, ◌==◌, false, true, not, some,
  Bool, Text, List, ℕ,
}
use bluepy.Mgmt.Pairing.{device_request, cmd_unpair, cmd_pair}
use bluepy.Mgmt.Oob.{
  LocalOob, read_local_oob_data, cmd_read_oob, add_remote_oob_data_complete,
  read_local_oob_data_complete,
}
use bluepy.World.{◌>>◌, skip, get, pure, on_option, Event, ◌>>=◌, M, Action, World, Ptr, steps, Env}
use bluepy.Mgmt.Request.{request_complete, submit, with_mgmt}

Replies-with_mgmt :
    {env : Env} {body : Ptr → World → Action}
    → ((p : Ptr) (w : World) → Replies env (body p w))
    → Replies env (with_mgmt body)
unfolding with_mgmt
Replies-with_mgmt k =
    Replies-get _ _ (λ w. Replies-on_option _ _ _ (Replies-resp_error _) (λ p. k p w))

Runs-submit :
    (env : Env) (master : Ptr) (opcode : ℕ) (cp : Text) → Runs (submit env master opcode cp)
unfolding submit
Runs-submit env master opcode cp = search running

submitted :
    {B : Type 0} (env : Env) (master : Ptr) (opcode : ℕ) (cp : Text) (f : Bool → M B) (w : World)
    (b : Bool)
    → not (env.mgmt_send w.trace master opcode w.mgmt_ind cp == 0) ≡ b
    → Runs (f true)
    → Replies env (f false)
    → Replied env w
        (f b (record w { trace = Event.mgmt_send master opcode w.mgmt_ind cp ∷ w.trace }))
submitted env master opcode cp f w true e h k =
    let v : World = record w { trace = Event.mgmt_send master opcode w.mgmt_ind cp ∷ w.trace } in
    Replied-then env w v (Event.mgmt_send master opcode w.mgmt_ind cp ∷ []) (f true v) refl
      (inl (ground arith)) (h.runs v)
submitted env master opcode cp f w false e h k =
    let v : World = record w { trace = Event.mgmt_send master opcode w.mgmt_ind cp ∷ w.trace } in
    Ran-then env w v (Event.mgmt_send master opcode w.mgmt_ind cp ∷ []) (f false v) refl
      (k.replies v)

-- A request that is sent will be answered by the controller; where it is not, what follows has to
-- answer.
pub Replies-submit :
    {B : Type 0} {env : Env} (master : Ptr) (opcode : ℕ) (cp : Text) (f : Bool → M B)
    → Runs (f true)
    → Replies env (f false)
    → Replies env (submit env master opcode cp >>= f)
unfolding submit steps
Replies-submit {env} master opcode cp f h k = record {
  replies = λ w. submitted env master opcode cp f w _ refl h k;
}

module _ (env : Env) where
  pub Replies-request_complete : (status : ℕ) → Replies env (request_complete env status)
  unfolding request_complete
  Replies-request_complete status = search (replying, responding)

  pub Replies-scan_cb : (status : ℕ) → Replies env (scan_cb env status)
  unfolding scan_cb
  Replies-scan_cb status = search (replying, responding)

  Replies-device_request :
      (master : Ptr) (w : World) (opcode last : ℕ)
      → Replies env (device_request env master w opcode last)
  unfolding device_request
  Replies-device_request master w opcode last =
      Replies-on_option _ _ _ (Replies-resp_mgmt _)
        (λ bdaddr. Replies-submit _ _ _ _ Runs-skip (Replies-resp_mgmt _))

  pub Replies-cmd_pair : (argv : List Text) → Replies env (cmd_pair env argv)
  unfolding cmd_pair
  Replies-cmd_pair argv =
      Replies-with_mgmt λ p w. search (replying, responding, Replies-device_request)

  pub Replies-cmd_unpair : (argv : List Text) → Replies env (cmd_unpair env argv)
  unfolding cmd_unpair
  Replies-cmd_unpair argv = Replies-with_mgmt λ p w. search (Replies-device_request)

  Replies-scan : (on : Bool) → Replies env (scan env on)
  unfolding scan
  Replies-scan on = Replies-with_mgmt λ p w. Replies-submit _ _ _ _ Runs-skip (Replies-resp_mgmt _)

  pub Replies-cmd_scan : (argv : List Text) → Replies env (cmd_scan env argv)
  unfolding cmd_scan
  Replies-cmd_scan argv = search (replying, responding, Replies-scan)

  pub Replies-cmd_scanend : (argv : List Text) → Replies env (cmd_scanend env argv)
  unfolding cmd_scanend
  Replies-cmd_scanend argv = search (replying, responding, Replies-scan)

  pub Replies-cmd_read_oob : (argv : List Text) → Replies env (cmd_read_oob env argv)
  unfolding cmd_read_oob read_local_oob_data
  Replies-cmd_read_oob argv =
      Replies-first
        (Replies-get _ _ (λ w.
          Replies-on_option _ _ _ (Replies-then (Replies-resp_error _) (Runs-pure _)) (λ master.
            Replies-submit _ _ _ _ (Runs->> Runs-skip (Runs-pure _))
              (Replies-then (Replies-resp_error _) (Runs-pure _)))))
        (λ done. Runs-skip)

  pub Replies-oob_read :
      (status : ℕ) (rp : LocalOob) → Replies env (read_local_oob_data_complete env status (some rp))
  unfolding read_local_oob_data_complete
  Replies-oob_read status rp = search (replying, responding, sending) depth 8

  pub Runs-oob_added : (status : ℕ) → Runs (add_remote_oob_data_complete env status)
  unfolding add_remote_oob_data_complete
  Runs-oob_added status =
      Runs-if _ (Replies→Runs {env = env} (Replies-resp_mgmt_err status)) Runs-skip

  Replies-send_mode :
      (master : Ptr) (opcode val : ℕ) → Replies env (send_mode env master opcode val)
  unfolding send_mode
  Replies-send_mode master opcode val =
      Replies-submit _ _ _ _ (Runs->> Runs-skip (Runs-pure _))
        (Replies-then (Replies-resp_mgmt _) (Runs-pure _))

  mode_tail :
      (master : Ptr) (opcode : ℕ) (val : Option ℕ)
      → Replies env (
          on_option val (pure false) (λ v. send_mode env master opcode v) >>= λ understood.
          if understood then skip else resp_mgmt err_bad_param)
  unfolding on_option pure ◌>>=◌
  mode_tail master opcode none = Replies-resp_mgmt err_bad_param
  mode_tail master opcode (some v) =
      Replies-first (Replies-send_mode master opcode v)
        (λ understood. Runs-if understood Runs-skip (Runs-resp_mgmt _))

  mode_body :
      (opcode : ℕ) (mode : Text) (master : Option Ptr)
      → Replies env (
          on_option master
            (do resp_error err_no_mgmt; pure true)
            (λ p. on_option (mode_value mode) (pure false) (λ v. send_mode env p opcode v))
          >>= λ understood. if understood then skip else resp_mgmt err_bad_param)
  unfolding on_option
  mode_body opcode mode none =
      Replies-first (Replies-then (Replies-resp_error _) (Runs-pure _))
        (λ understood. Runs-if understood Runs-skip (Runs-resp_mgmt _))
  mode_body opcode mode (some p) = mode_tail p opcode (mode_value mode)

  Replies-set_mode :
      (opcode : ℕ) (mode : Text)
      → Replies env (
          set_mode env opcode mode >>= λ understood.
          if understood then skip else resp_mgmt err_bad_param)
  unfolding set_mode ◌>>=◌ get
  Replies-set_mode opcode mode = record {
    replies = λ w. (mode_body opcode mode w.mgmt_master).replies w;
  }

  pub Replies-mode_command :
      (opcode : ℕ) (argv : List Text) → Replies env (mode_command env opcode argv)
  unfolding mode_command
  Replies-mode_command opcode argv =
      Replies-if _ (Replies-resp_mgmt _) (Replies-set_mode opcode (arg argv 1))
