-- ===== src/Net/Endpoint/Agreement.antt =====
-- crates/rdesk_net/src/quic/client.rs and server.rs: the configurations of the two ends.
use rdesk.Prelude.{
  ◌+◌, ◌<◌, ◌≡◌, ◌⊎◌, ap, sym, ◌∙◌, codes, [], ◌∷◌, refl, some, arith, Text, Option-cases, inl, inr,
}
use rdesk.Net.Stun.{SocketAddr}
use rdesk.Net.Endpoint.{
  Quic, Verifier, skip_server_verification, unverified, TlsConfig, Made, made, failed, configured,
  transport, new_client, new_server, tls_of, EndpointError, idle_timeout_ms, keep_alive_interval,
}

module _ (Q : Quic) where
  configured-made :
      (name : Text) (how : Verifier) (tls : TlsConfig Q.Certificate)
      → configured Q name how ≡ made tls
      → (tls.verifier ≡ how) × (tls.alpn_protocols ≡ codes "rdesk" ∷ [])
  unfolding configured
  configured-made name how tls e = elim (Option-cases (Q.generate_simple_self_signed (name ∷ []))) [
    | inl n ↦ absurd (ground arith)
    | inr (certificate, g) ↦
        let same : tls_of Q certificate how ≡ tls = ground arith in
        (ap (λ c. c.verifier) (sym same), ap (λ c. c.alpn_protocols) (sym same))
  ]

  Made-cases :
      (m : Made (TlsConfig Q.Certificate))
      → ((x : EndpointError) × (m ≡ failed x)) ⊎ ((a : TlsConfig Q.Certificate) × (m ≡ made a))
  Made-cases (made a) = inr (a, refl)
  Made-cases (failed x) = inl (x, refl)

  made_client :
      (client : Q.Endpoint)
      → new_client Q ≡ made client
      → (tls : TlsConfig Q.Certificate) × (configured Q
            (codes "rdesk-client")
            skip_server_verification
          ≡ made tls)
        × (Q.client_endpoint tls transport ≡ some client)
  unfolding new_client
  made_client client e =
      elim (Made-cases (configured Q (codes "rdesk-client") skip_server_verification)) [
        | inl (x, m) ↦ absurd (ground arith)
        | inr (tls, m) ↦ elim (Option-cases (Q.client_endpoint tls transport)) [
          | inl n ↦ absurd (ground arith)
          | inr (made_end, n) ↦ (tls, m, ground arith)
        ]
      ]

  made_server :
      (addr : SocketAddr) (server : Q.Endpoint)
      → new_server Q addr ≡ made server
      → (tls : TlsConfig Q.Certificate) × (configured Q (codes "rdesk-server") unverified
          ≡ made tls)
        × (Q.server_endpoint tls transport addr ≡ some server)
  unfolding new_server
  made_server addr server e = elim (Made-cases (configured Q (codes "rdesk-server") unverified)) [
    | inl (x, m) ↦ absurd (ground arith)
    | inr (tls, m) ↦ elim (Option-cases (Q.server_endpoint tls transport addr)) [
      | inl n ↦ absurd (ground arith)
      | inr (made_end, n) ↦ (tls, m, ground arith)
    ]
  ]

  -- If both ends can be made, they were made with the same protocol and the same timeouts, the
  -- client skips the verification of certificates, and the keep-alive interval fits twice into the
  -- idle timeout.
  pub endpoints_agree :
      (addr : SocketAddr) (client server : Q.Endpoint)
      → new_client Q ≡ made client
      → new_server Q addr ≡ made server
      → (ctls : TlsConfig Q.Certificate) × (stls : TlsConfig Q.Certificate) × (Q.client_endpoint
            ctls transport
          ≡ some client)
        × (Q.server_endpoint stls transport addr ≡ some server)
        × (ctls.alpn_protocols ≡ stls.alpn_protocols)
        × (ctls.verifier ≡ skip_server_verification)
        × (keep_alive_interval + keep_alive_interval < idle_timeout_ms)
  endpoints_agree addr client server c s =
      let (ctls, cf, ce) = made_client client c in
      let (stls, sc, se) = made_server addr server s in
      let cs = configured-made _ _ ctls cf in
      let ss = configured-made _ _ stls sc in
      (ctls, stls, ce, se, cs.1 ∙ sym ss.1, cs.0, omega arith)
