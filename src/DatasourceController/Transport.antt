-- ===== src/DatasourceController/Transport.antt =====
-- The transport of the Datasource reconciler's client: it adds the header of the tenant to each
-- request. The header's Add and the transport behind it are parameters.
use osko.Prelude.{String, ◌⊎◌}
use osko.Errors.{GoError}

module _ (Header Request Response S : Type 0) where
  -- api.DefaultRoundTripper, of a request's header and the rest of it
  abbrev pub RoundTripper : Type 0
  RoundTripper = Header → Request → S → (GoError ⊎ Response) × S

  pub record CustomRoundTripper : Type 0 where
    pub transport : RoundTripper
    pub tenant_id : String

  -- With the header of the request as it stands afterwards, since Add writes into it.
  unfoldable pub round_trip :
      (Header → String → String → Header)
      → CustomRoundTripper
      → Header
      → Request
      → S
      → ((GoError ⊎ Response) × Header) × S
  round_trip add c header request s =
      let sent = add header "X-Scope-OrgId" c.tenant_id in
      let (answer, t) = c.transport sent request s in ((answer, sent), t)
