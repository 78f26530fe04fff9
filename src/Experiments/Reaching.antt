-- ===== src/Experiments/Reaching.antt =====
-- experiments/__init__.py: which classes the runner can find, and which of those it finds never return.
use minitopo.Base.{
  String, ◌≡◌, ◌≢◌, ◌↔◌, refl, Bool, true, false, ◌||◌, Bool-cases, inl, inr, [], ◌∷◌, some, arith,
}
use minitopo.Base.Dict.{Dict, lookup, insert}
use minitopo.Experiments.Classes.{
  ExperimentClass, ab_class, ditg_class, epload_class, http_class, https_class, iperf_class,
  iperf_scenario_class, msg_class, nc_class, ncpv_class, netperf_class, none_class, ping_class,
  pquic_class, quic_class, quiche_class, quic_mpath_class, quic_siri_class, send_file_class,
  siri_class, siri_http_class, siri_msg_class, vlc_class, experiments,
}
use minitopo.Registry.{register}

-- Does some value of a table pass a test?
abbrev any_value : {A : Type 0} → (A → Bool) → Dict A → Bool
any_value f [] = false
any_value f ((k, a) ∷ d) = f a || any_value f d

any_value-lookup :
    {A : Type 0} (f : A → Bool) (k : String) (a : A) (d : Dict A)
    → any_value f d ≡ false
    → lookup k d ≡ some a
    → f a ≡ false
unfolding lookup
any_value-lookup f k a [] none_passes found = cc
any_value-lookup f k a ((j, b) ∷ d) none_passes found = ground (arith, any_value-lookup f k a d)

is_quic : ExperimentClass → Bool
is_quic quic_class = true
is_quic _ = false

-- A name under which a class stands.
name_of_class : ExperimentClass → String
name_of_class ab_class = "ab"
name_of_class ditg_class = "ditg"
name_of_class epload_class = "epload"
name_of_class http_class = "http"
name_of_class https_class = "https"
name_of_class iperf_class = "iperf"
name_of_class iperf_scenario_class = "iperfScenario"
name_of_class msg_class = "msg"
name_of_class nc_class = "nc"
name_of_class ncpv_class = "ncpv"
name_of_class netperf_class = "netperf"
name_of_class none_class = "none"
name_of_class ping_class = "ping"
name_of_class pquic_class = "pquic"
name_of_class quic_class = ""
name_of_class quiche_class = "quic"
name_of_class quic_mpath_class = "quic_mpath"
name_of_class quic_siri_class = "quicsiri"
name_of_class send_file_class = "sendfile"
name_of_class siri_class = "siri"
name_of_class siri_http_class = "sirihttp"
name_of_class siri_msg_class = "sirimsg"
name_of_class vlc_class = "vlc"

none_is_quic : any_value is_quic experiments ≡ false
unfolding experiments register insert is_quic
none_is_quic = refl

lookup-name_of_class :
    (a : ExperimentClass) → is_quic a ≡ false → lookup (name_of_class a) experiments ≡ some a
unfolding lookup experiments register insert is_quic name_of_class
lookup-name_of_class quic_class h = cc
lookup-name_of_class ab_class h = refl
lookup-name_of_class ditg_class h = refl
lookup-name_of_class epload_class h = refl
lookup-name_of_class http_class h = refl
lookup-name_of_class https_class h = refl
lookup-name_of_class iperf_class h = refl
lookup-name_of_class iperf_scenario_class h = refl
lookup-name_of_class msg_class h = refl
lookup-name_of_class nc_class h = refl
lookup-name_of_class ncpv_class h = refl
lookup-name_of_class netperf_class h = refl
lookup-name_of_class none_class h = refl
lookup-name_of_class ping_class h = refl
lookup-name_of_class pquic_class h = refl
lookup-name_of_class quiche_class h = refl
lookup-name_of_class quic_mpath_class h = refl
lookup-name_of_class quic_siri_class h = refl
lookup-name_of_class send_file_class h = refl
lookup-name_of_class siri_class h = refl
lookup-name_of_class siri_http_class h = refl
lookup-name_of_class siri_msg_class h = refl
lookup-name_of_class vlc_class h = refl

-- The runner can find every class that has a name but `QUIC`, whose name has been given to
-- `QuicheHTTP3`: a class stands under some name of the table just if it is not `QUIC`.
pub reached_iff :
    (a : ExperimentClass)
    → ((name : String) × (lookup name experiments ≡ some a)) ↔ (a ≢ quic_class)
unfolding is_quic
reached_iff a = (
  λ (name, found) e.
      let passes = any_value-lookup is_quic name a experiments none_is_quic found in
      cc (rw e at passes),
  λ other. elim (Bool-cases (is_quic a)) [
    | inl quic ↦ absurd (other (is_quic-eq a quic))
    | inr no_quic ↦ (name_of_class a, lookup-name_of_class a no_quic)
  ],
)
  where
    is_quic-eq : (a : ExperimentClass) → is_quic a ≡ true → a ≡ quic_class
    is_quic-eq quic_class h = refl
    is_quic-eq _ h = cc
