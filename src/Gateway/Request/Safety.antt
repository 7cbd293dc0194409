-- ===== src/Gateway/Request/Safety.antt =====
-- What a request that is let through names.
use free_net_hub.Prelude.{◌≡◌, refl, List, Result, ok, err}
use free_net_hub.Prelude.Exec.{lift, raise, except, caught, ◌>>◌}
use free_net_hub.Prelude.Faults.{Triple, Ends}
use free_net_hub.Prelude.Faults.Rules.{Triple-bind, Triple-raise}
use free_net_hub.Text.{Text}
use free_net_hub.Hosts.Fixed.{IsShaped}
use free_net_hub.Selective.Pac.Routes.{Covered}
use free_net_hub.Gateway.Socket.{GatewayError, Conn, S}
use free_net_hub.Gateway.Request.{
  safe_host, read_methods, read_target, reply, admit_host, read_request,
}
use free_net_hub.Gateway.Request.Targets.{safe_host-Covered}

abbrev Any : {A : Type 0} → A → Conn → Type 0
Any a c = Unit

Ends-Any : {A : Type 0} (r : Result GatewayError A) (c : Conn) → Ends Any Any (r, c)
Ends-Any (ok a) c = tt
Ends-Any (err e) c = tt

Triple-Any : {A : Type 0} (m : S A) → Triple (λ _. Unit) m Any Any
Triple-Any m = record { at = λ c _. let (r, d) = m c in Ends-Any r d }

abbrev Admitted : List Text → Text → Conn → Type 0
Admitted domains host c = IsShaped host × Covered domains host

admitted :
    (raw : Text) (domains : List Text) (r : Result GatewayError Text) (c : Conn)
    → safe_host raw domains ≡ r
    → Ends (Admitted domains) Any (caught (λ e. do reply 2; raise e) (r, c))
unfolding reply
admitted raw domains (ok host) c e = safe_host-Covered raw domains e
admitted raw domains (err x) c e =
    (Triple-bind (reply 2) (λ _. raise x) (Triple-Any (reply 2))
        (λ _. Triple-raise x (λ s p. tt))).at
      c tt

-- Whatever a client sends, in whatever segments, a host that `_read_request` returns is a DNS name
-- that is a listed domain or stands below one.
pub read_request-Covered :
    (domains : List Text) (c : Conn)
    → Ends (λ host d. IsShaped host × Covered domains host) (λ _ _. Unit) (read_request domains c)
unfolding read_request admit_host except lift
read_request-Covered domains c =
    (Triple-bind read_methods _ (Triple-Any read_methods) (λ _.
        Triple-bind read_target _ (Triple-Any read_target)
          (λ raw. record { at = λ d _. admitted raw domains (safe_host raw domains) d refl }))).at
      c tt
