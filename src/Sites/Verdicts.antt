-- ===== src/Sites/Verdicts.antt =====
-- What a diagnosis says.
use free_net_hub.Prelude.{◌≡◌, ◌≢◌, ◌↔◌, ◌⊎◌, true, false}
use free_net_hub.Text.{Text}
use free_net_hub.Sites.{
  answers, regional_403_improved, both_routes_forbidden, tunnel_forbidden, probe_inconclusive,
  no_unauthenticated_origin_403, Diagnosis,
}

-- The table of verdicts, told by the two codes; a code of 0 is a probe that has failed.
pub record IsTrue (d : Diagnosis) : Type 0 where
  pub improved :
      (d.result ≡ regional_403_improved) ↔ ((d.direct_code ≡ 403) × (answers d.tunnel_code ≡ true))
  pub both : (d.result ≡ both_routes_forbidden) ↔ ((d.direct_code ≡ 403) × (d.tunnel_code ≡ 403))
  pub tunnel : (d.result ≡ tunnel_forbidden) ↔ ((d.direct_code ≢ 403) × (d.tunnel_code ≡ 403))
  pub failed :
      (d.result ≡ probe_inconclusive)
      ↔ ((d.tunnel_code ≢ 403) × ((d.direct_code ≡ 0) ⊎ (d.tunnel_code ≡ 0)))
  pub no_403 : (d.result ≡ no_unauthenticated_origin_403) ↔ (
      (d.direct_code ≢ 0)
      × (d.tunnel_code ≢ 0)
      × (d.tunnel_code ≢ 403)
      × ((d.direct_code ≢ 403) ⊎ (answers d.tunnel_code ≡ false)))
  pub suggestion : (d.suggest_add ≡ true) ↔ (d.result ≡ regional_403_improved)
