-- ===== src/Query/RemoteScan/Endpoint/RoundTrip.antt =====
-- Endpoints that are printed as `host:port` are read back, and nothing else is read.
use elan.Common.{
  ℕ, ◌^◌, ◌<◌, ◌≡◌, ◌≢◌, refl, ◌++◌, [], ◌∷◌, Option, none, some, Text, Result, ok, All,
  Result-cases, Bool-cases, ==_iff, inl, inr, ap, ◌∙◌, ◌==◌, arith,
}
use elan.Common.Decimal.{display_nat, parse_below}
use elan.Common.Decimal.RoundTrip.{
  IsDigit, display_nat-IsDigit, parse_below-display_nat, parse_below-lt,
}
use elan.Iam.Optimizer.{DfError}
use elan.Query.RemoteScan.Endpoint.{rsplit_colon, split_endpoint, parse_port, parse_endpoint}

abbrev NoColon : Text → Type 0
NoColon = All (λ c. c ≢ b':')

NoColon-of_IsDigit : (s : Text) → All IsDigit s → NoColon s
NoColon-of_IsDigit [] h = tt
NoColon-of_IsDigit (c ∷ s) (d, h) = (omega arith, NoColon-of_IsDigit s h)

rsplit_colon-none : (s : Text) → NoColon s → rsplit_colon s ≡ none
unfolding rsplit_colon
rsplit_colon-none [] h = refl
rsplit_colon-none (c ∷ s) (d, h) = ground (arith, rsplit_colon-none s h)

rsplit_colon-append : (s t : Text) → NoColon t → rsplit_colon (s ++ (b':' ∷ t)) ≡ some (s, t)
unfolding rsplit_colon
rsplit_colon-append [] t h = ground (arith, rsplit_colon-none t h)
rsplit_colon-append (c ∷ s) t h = ground (arith, rsplit_colon-append s t h)

-- The endpoint that is advertised for a host and a port is parsed to that host and port, for every
-- 16-bit port; the host may itself hold colons.
pub parse_endpoint-display :
    (host : Text) (port : ℕ)
    → port < 2 ^ 16
    → parse_endpoint (host ++ (b':' ∷ display_nat port)) ≡ ok (host, port)
unfolding parse_endpoint
parse_endpoint-display host port h =
    rw
      (
        rsplit_colon-append host (display_nat port)
            (NoColon-of_IsDigit (display_nat port) (display_nat-IsDigit port)),
        parse_below-display_nat (2 ^ 16) port h,
      )
      refl

NoColon-of_none : (s : Text) → rsplit_colon s ≡ none → NoColon s
unfolding rsplit_colon
NoColon-of_none [] h = tt
NoColon-of_none (c ∷ s) h = ground (arith, NoColon-of_none s)

-- The parts of a split, read off its computation.
abbrev IsSplit : Text → Option (Text × Text) → Type 0
IsSplit s none = NoColon s
IsSplit s (some (before, after)) = (s ≡ before ++ (b':' ∷ after)) × NoColon after

cons-IsSplit :
    (c : ℕ) (s : Text) (o : Option (Text × Text))
    → rsplit_colon s ≡ o
    → IsSplit s o
    → IsSplit (c ∷ s) (rsplit_colon (c ∷ s))
unfolding rsplit_colon
cons-IsSplit c s none e h = elim (Bool-cases (c == b':')) [
  | inl colon ↦ rw (e, colon) (ap (λ x. x ∷ s) ((==_iff c b':').0 colon), h)
  | inr other ↦ rw (e, other) (ground arith, h)
]
cons-IsSplit c s (some (before, after)) e h = rw e (ap (λ x. c ∷ x) h.0, h.1)

rsplit_colon-IsSplit : (s : Text) → IsSplit s (rsplit_colon s)
unfolding rsplit_colon
rsplit_colon-IsSplit [] = tt
rsplit_colon-IsSplit (c ∷ s) = cons-IsSplit c s (rsplit_colon s) refl (rsplit_colon-IsSplit s)

abbrev pub IsEndpoint : Text → Text → ℕ → Type 0
IsEndpoint endpoint host port =
    (t : Text) × (endpoint ≡ host ++ (b':' ∷ t))
    × NoColon t
    × (parse_below (2 ^ 16) t ≡ ok port)
    × (port < 2 ^ 16)

parse_port_sound :
    (endpoint before after host : Text) (port : ℕ)
    → IsSplit endpoint (some (before, after))
    → parse_port before (parse_below (2 ^ 16) after) ≡ ok (host, port)
    → IsEndpoint endpoint host port
unfolding parse_port
parse_port_sound endpoint before after host port split h =
    elim (Result-cases (parse_below (2 ^ 16) after)) [
      | inl (p, e) ↦
          let same : ◌≡◌ {A = Result DfError (Text × ℕ)} (ok (before, p)) (ok (host, port)) =
            rw e at h in
          let port_is : p ≡ port = cc in
          let host_is : before ≡ host = cc in
          (
            after,
            rw (← host_is) split.0,
            split.1,
            e ∙ ap ok port_is,
            parse_below-lt (2 ^ 16) after port (omega arith) (e ∙ ap ok port_is),
          )
      | inr (x, e) ↦ absurd (cc)
    ]

split_endpoint_sound :
    (endpoint host : Text) (port : ℕ) (o : Option (Text × Text))
    → IsSplit endpoint o
    → split_endpoint endpoint o ≡ ok (host, port)
    → IsEndpoint endpoint host port
unfolding split_endpoint
split_endpoint_sound endpoint host port none split h = cc
split_endpoint_sound endpoint host port (some (before, after)) split h =
    parse_port_sound endpoint before after host port split h

-- What is parsed as an endpoint is the host, a colon and a text without colons that spells the
-- port, and the port fits 16 bits.
pub parse_endpoint_sound :
    (endpoint host : Text) (port : ℕ)
    → parse_endpoint endpoint ≡ ok (host, port)
    → IsEndpoint endpoint host port
unfolding parse_endpoint
parse_endpoint_sound endpoint host port h =
    split_endpoint_sound endpoint host port (rsplit_colon endpoint) (rsplit_colon-IsSplit endpoint)
      h
