-- ===== src/Experiments/Netcat.antt =====
-- experiments/nc.py and ncpv.py. The floating-point numbers are a parameter, and so are `sendCmd` and
-- `waitOutput` of a Mininet node.
use minitopo.Base.{
  ℕ, String, List, [], ◌∷◌, ◌++◌, Option, none, some, length, get_elem?, if◌then◌else◌,
}
use minitopo.Base.Int.{pos}
use minitopo.Errors
use minitopo.Errors.{Result, ok, err, attribute_error, index_error, or_raise}
use minitopo.Floats.{Floats}
use minitopo.Text.{concat, ◌<>◌}
use minitopo.Text.Number.{show}
use minitopo.Parameter
use minitopo.Parameter.{Parameter, Value}
use minitopo.Link.{last}
use minitopo.Network.{Env}
use minitopo.Run.{Run, pure, lift, for_each, count_from, ◌>>=◌, ◌>>◌}
use minitopo.Experiment.{Experiment, TopoConfig, load_parameter}
use minitopo.Experiment.Phases.{prepare, clean, classic_run}
use minitopo.Experiments.{with_defaults, added, command_on, ping_first_server}

-- `DD_IBS` and `DD_OBS` are the same key.
unfoldable pub nc_parameter : Option String → Parameter
unfolding load_parameter with_defaults
nc_parameter contents =
    with_defaults
      (("ddIBS", "1k")
        ∷ ("ddCount", "5000")
        ∷ ("ncServerPort", "33666")
        ∷ ("ncClientPort", "33555")
        ∷ [])
      (load_parameter contents)

unfoldable pub ncpv_parameter : Option String → Parameter
unfolding nc_parameter with_defaults
ncpv_parameter contents =
    with_defaults
      (("pvRateLimit", "400k") ∷ ("pvG", "10000") ∷ ("pvZ", "10000") ∷ ("changePv", "no") ∷ [])
      (nc_parameter contents)

-- The attributes that `NC.load_parameters` sets.
pub record NcLoaded : Type 0 where
  pub ddibs : Value
  pub ddobs : Value
  pub ddcount : Value
  pub nc_server_port : Value
  pub nc_client_port : List Value

-- `" | "` and what comes before it.
unfoldable dd_cmd : NcLoaded → Result String
unfolding concat
dd_cmd x = Errors.◌>>=◌ (added x.ddibs) λ ibs. Errors.◌>>=◌ (added x.ddobs) λ obs.
    Errors.◌>>=◌ (added x.ddcount) λ count.
      ok (concat ("dd if=/dev/urandom ibs=" ∷ ibs ∷ " obs=" ∷ obs ∷ " count=" ∷ count ∷ " | " ∷ []))

unfoldable pub get_nc_server_cmd : NcLoaded → ℕ → Result String
unfolding concat show dd_cmd
get_nc_server_cmd x id = Errors.◌>>=◌ (dd_cmd x) λ dd. Errors.◌>>=◌ (added x.nc_server_port) λ port.
    ok (concat (dd ∷ "netcat -l " ∷ port ∷ " &>netcat_server_" ∷ show (pos id) ∷ ".log" ∷ []))

unfoldable pub get_nc_client_cmd : Result String → NcLoaded → ℕ → Result String
unfolding concat show
get_nc_client_cmd server_ip x id =
    Errors.◌>>=◌ (or_raise index_error (get_elem? x.nc_client_port id)) λ client.
      Errors.◌>>=◌ (added client) λ client_port. Errors.◌>>=◌ server_ip λ ip.
        Errors.◌>>=◌ (added x.nc_server_port) λ port. ok (
          concat (
            "netcat  -p "
            ∷ client_port
            ∷ " "
            ∷ ip
            ∷ " "
            ∷ port
            ∷ " &>netcat_client_"
            ∷ show (pos id)
            ∷ ".log"
            ∷ []))

unfoldable pub get_pv_server_cmd : NcLoaded → ℕ → Result String
unfolding concat show
get_pv_server_cmd x id = Errors.◌>>=◌ (added x.nc_server_port) λ port. ok (
    concat
      ("netcat -d   -l " ∷ port ∷ " 1>/dev/null 2>netcat_server_" ∷ show (pos id) ∷ ".log &" ∷ []))

-- `NC.PV_BIN` is no attribute of `NC`.
unfoldable pub get_pv_client_cmd : NcLoaded → Result String
unfolding dd_cmd
get_pv_client_cmd x = Errors.◌>>=◌ (dd_cmd x) λ dd. err attribute_error

pub record MpPvAt (F : Type 0) : Type 0 where
  pub at : F
  pub cmd : String
  pub delta : F

module _ (fl : Floats) where
  open fl use {F, read, of_int, sub, lt, show}

  -- `MpPvAt(at, cmd)`
  unfoldable pub new_pv_at : F → String → MpPvAt F
  new_pv_at at cmd = record { at = at; cmd = cmd; delta = of_int (pos 0) }

  unfoldable pub add_pv_at : List (MpPvAt F) → MpPvAt F → List (MpPvAt F)
  add_pv_at changes p = elim (last changes) [
    | none ↦ changes ++ record p { delta = p.at } ∷ []
    | some previous ↦
        if lt previous.at p.at
        then changes ++ record p { delta = sub p.at previous.at } ∷ []
        else changes
  ]

  -- `loadPvAt` empties the changes and asks for `ExperimentParameter.CHANGEPV`, which does not exist:
  -- the loop that adds the changes is not reached.
  unfoldable load_pv_at : Run (List (MpPvAt F)) Unit
  load_pv_at changes = (err attribute_error, [])

  unfoldable get_pv_change_cmd : String → List (MpPvAt F) → String
  unfolding concat ◌<>◌
  get_pv_change_cmd pv_pid [] = " true &"
  get_pv_change_cmd pv_pid (p ∷ ps) =
      concat
        ("sleep " ∷ show p.delta ∷ " && /usr/local/bin/pv -R " ∷ pv_pid ∷ " " ∷ p.cmd ∷ " && " ∷ [])
      <> get_pv_change_cmd pv_pid ps

module _ {F : Type 0} (env : Env) (c : TopoConfig F) (p : Parameter) where
  -- The parameters have no attribute `paramDic`.
  unfoldable pub load_nc : Run (Experiment F) NcLoaded
  load_nc = do
    lift (Parameter.get p "ddIBS")
    lift (Parameter.get p "ddIBS")
    lift (Parameter.get p "ddCount")
    lift (Parameter.get p "ncServerPort")
    lift {S = Experiment F} {A = NcLoaded} (err attribute_error)

  unfoldable pub nc_prepare : Run (Experiment F) Unit
  nc_prepare = do
    prepare env c p
    command_on env c.client "rm netcat_client"
    command_on env c.server "rm netcat_server"

  unfoldable pub nc_clean : Run (Experiment F) Unit
  nc_clean = do clean env c p; command_on env c.server "killall netcat"

  module _ (send_cmd : String → String → Run (Experiment F) Unit)
      (wait_output : String → Run (Experiment F) Unit) where
    unfoldable pub nc_round : NcLoaded → ℕ → Run (Experiment F) Unit
    nc_round x i = do
      server_cmd ← lift (get_nc_server_cmd x i)
      send_cmd c.server server_cmd
      client_cmd ← lift (get_nc_client_cmd (c.get_server_ip 0) x i)
      command_on env c.client client_cmd
      wait_output c.server
      command_on env c.client "sleep 1"

    unfoldable pub nc_run : NcLoaded → Run (Experiment F) Unit
    nc_run x = for_each (nc_round x) (count_from 0 (length x.nc_client_port))

    -- `NC(...)` and its `classic_run`.
    unfoldable pub nc_experiment : Run (Experiment F) Unit
    nc_experiment = do x ← load_nc; classic_run env c p nc_prepare (nc_run x) nc_clean

  -- A round of `NCPV.run`, up to the command that cannot be made.
  unfoldable pub ncpv_round : NcLoaded → ℕ → Run (Experiment F) Unit
  ncpv_round x i = do
    server_cmd ← lift (get_pv_server_cmd x i)
    command_on env c.server server_cmd
    lift (get_pv_client_cmd x)
    pure tt

  unfoldable pub ncpv_run : NcLoaded → Run (Experiment F) Unit
  ncpv_run x = for_each (ncpv_round x) (count_from 0 (length x.nc_client_port))

  -- `NCPV(...)`, whose constructor begins with that of `NC`, and its `classic_run`.
  unfoldable pub ncpv_experiment : Run (Experiment F) Unit
  ncpv_experiment = do
    x ← load_nc
    lift {S = Experiment F} {A = Unit} (err attribute_error)
    ping_first_server env c p
    classic_run env c p nc_prepare (ncpv_run x) nc_clean
