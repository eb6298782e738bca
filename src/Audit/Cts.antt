-- ===== src/Audit/Cts.antt =====
-- `fetchCtsAddresses` of hardhat/tasks/audit/utils.ts: the addresses that a node's CTS has for one of its
-- services. `env` is `process.env`; axios is a parameter.
use rayls_sovereign_contract.Base.{ℕ, Option, List, [], ◌++◌, get_or, if◌then◌else◌}
use rayls_sovereign_contract.Base.Text.{Text, codes, decimal, truthy}
use rayls_sovereign_contract.Base.Outcome.{error, JsError, Outcome, ok, err, Exec, throw}

pub data Service : Type 0 where
  private_relayer public_relayer : Service

abbrev pub service_name : Service → Text
service_name private_relayer = codes "private_relayer"
service_name public_relayer = codes "public_relayer"

pub record CtsAddressesResponse : Type 0 where
  pub private_chain_addresses : Option (List Text)
  pub private_hub_addresses : Option (List Text)
  pub private_hub_dvp_operator_addresses : Option (List Text)
  pub public_chain_addresses : Option (List Text)
  pub error_message : Option Text

-- What `axios.get` comes to: an answer, or an error with a response, with a request only, or with neither.
pub data AxiosResult : Type 0 where
  answered : CtsAddressesResponse → AxiosResult
  refused : ℕ → Text → AxiosResult
  unreachable : AxiosResult
  failed : JsError → AxiosResult

module _ {W : Type 0} (env : Text → Option Text) (axios_get : Text → W → AxiosResult × W) where
  abbrev cts_url_env_var : Text → Text
  cts_url_env_var pn = codes "CTS_SERVICE_" ++ (pn ++ codes "_URL")

  abbrev endpoint_of : Text → Service → Text
  endpoint_of cts_url service =
      cts_url ++ (codes "/public/addresses?service=" ++ service_name service)

  abbrev checked : CtsAddressesResponse → Outcome CtsAddressesResponse
  checked r =
      if truthy r.error_message
      then err (error (codes "CTS API error: " ++ get_or r.error_message []))
      else ok r

  abbrev outcome_of : Text → AxiosResult → Outcome CtsAddressesResponse
  outcome_of endpoint (answered r) = checked r
  outcome_of endpoint (refused status text) = err (
      error (
        codes "HTTP error "
        ++ (decimal status ++ (codes ": " ++ (text ++ (codes " at " ++ endpoint))))))
  outcome_of endpoint unreachable =
      err (error (codes "Network error: could not reach CTS endpoint at " ++ endpoint))
  outcome_of endpoint (failed e) = err e

  abbrev request : Text → Exec W CtsAddressesResponse
  request endpoint w = let (r, w') = axios_get endpoint w in (outcome_of endpoint r, w')

  unfoldable pub default_cts_fetcher : Text → Service → Exec W CtsAddressesResponse
  default_cts_fetcher pn service =
      if truthy (env (cts_url_env_var pn))
      then request (endpoint_of (get_or (env (cts_url_env_var pn)) []) service)
      else throw
          (error (codes "Environment variable " ++ (cts_url_env_var pn ++ codes " is not set")))
