-- ===== src/Routes/Device/Expansion.antt =====
-- The requests that a bulk request is expanded to.
use linux_net_x.Base.{
  String, ◌≡◌, ◌∙◌, refl, sym, subst, inl, inr, false, ◌&&◌, Option, none, some, List, [], ◌∷◌,
  Bool-cases,
}
use linux_net_x.Nodes.{Result, ok, raise, value_error, ◌>>=◌}
use linux_net_x.Request.{Payload, Request, is_some}
use linux_net_x.Credentials.Vault.Provider.{model_copy}
use linux_net_x.Routes.Device.{
  ExecRequest, BulkDevice, device_dict, with_operation, with_host, expand_device, expand,
}

-- A request has at most one operation.
abbrev pub IsExclusive : Request → Type 0
IsExclusive r = (is_some r.config && is_some r.command) ≡ false

-- What a device's own operation makes of the request's.
pub record Operates (d : BulkDevice) (r r' : Request) : Type 0 where
  pub exclusive : IsExclusive r → IsExclusive r'
  pub own_command : (p : Payload) → d.command ≡ some p → (r'.command ≡ some p) × (r'.config ≡ none)
  pub own_config : (p : Payload) → d.config ≡ some p → (r'.config ≡ some p) × (r'.command ≡ none)
  pub inherited : d.command ≡ none → d.config ≡ none → r' ≡ r
  pub kept : record r' { command = r.command; config = r.config } ≡ r

with_operation-Operates :
    (d : BulkDevice) (r : Request) (a b : Option Payload)
    → d.command ≡ a
    → d.config ≡ b
    → (is_some a && is_some b) ≡ false
    → Operates d r (with_operation a b r)
unfolding with_operation
with_operation-Operates d r none none e f h = record {
  exclusive = λ x. x;
  own_command = λ p q. cc;
  own_config = λ p q. cc;
  inherited = λ p q. refl;
  kept = refl;
}
with_operation-Operates d r none (some b) e f h = record {
  exclusive = λ x. refl;
  own_command = λ p q. cc;
  own_config = λ p q. (sym f ∙ q, refl);
  inherited = λ p q. cc;
  kept = refl;
}
with_operation-Operates d r (some a) none e f h = record {
  exclusive = λ x. refl;
  own_command = λ p q. (sym e ∙ q, refl);
  own_config = λ p q. cc;
  inherited = λ p q. cc;
  kept = refl;
}
with_operation-Operates d r (some a) (some b) e f h = cc

-- The request of one device: its operation, and the connection with its own fields, which has a
-- host.
pub record Expanded (base : ExecRequest) (d : BulkDevice) (e : ExecRequest) : Type 0 where
  pub host : String
  pub named : e.connection_args "host" ≡ some host
  pub connection : e.connection_args ≡ model_copy base.connection_args (device_dict d)
  pub operates : Operates d base.request e.request
  pub same_execution : e.execution ≡ base.execution

pub data ExpandsAll (base : ExecRequest) : List BulkDevice → List ExecRequest → Type 0 where
  none_left : ExpandsAll base [] []
  one_more :
      {d : BulkDevice} {e : ExecRequest} {ds : List BulkDevice} {es : List ExecRequest}
      → Expanded base d e
      → ExpandsAll base ds es
      → ExpandsAll base (d ∷ ds) (e ∷ es)

expand_device-Expanded :
    (base : ExecRequest) (d : BulkDevice) (e : ExecRequest)
    → expand_device base d ≡ ok e
    → Expanded base d e
unfolding expand_device
expand_device-Expanded base d e h = elim (Bool-cases (is_some d.command && is_some d.config)) [
  | inl q ↦ let h' : raise value_error ≡ ok e = rw q at h in cc
  | inr q ↦ hosted ((model_copy base.connection_args (device_dict d)) "host") refl (rw q at h) q
]
  where
    hosted :
        (o : Option String)
        → model_copy base.connection_args (device_dict d) "host" ≡ o
        → with_host d base (model_copy base.connection_args (device_dict d)) o ≡ ok e
        → (is_some d.command && is_some d.config) ≡ false
        → Expanded base d e
    hosted none f h q = cc
    hosted (some host) f h q = subst (Expanded base d) p (record {
      host = host;
      named = f;
      connection = refl;
      operates = with_operation-Operates d base.request d.command d.config refl refl q;
      same_execution = refl;
    })
      where
        p :
            record base {
              request = with_operation d.command d.config base.request;
              connection_args = model_copy base.connection_args (device_dict d);
            }
            ≡ e
        p = cc

-- A bulk request that is expanded gives one request for each device, in the order of the devices.
-- Each has the connection with the device's fields put over the request's, with a host, and the
-- device's own command or configuration in place of the request's, of which at most one is there
-- if the request has at most one. Nothing else of the request changes.
pub expand-ExpandsAll :
    (base : ExecRequest) (ds : List BulkDevice) (es : List ExecRequest)
    → expand base ds ≡ ok es
    → ExpandsAll base ds es
unfolding expand
expand-ExpandsAll base [] [] h = none_left
expand-ExpandsAll base [] (e ∷ es) h = cc
expand-ExpandsAll base (d ∷ ds) es h =
    joined (expand_device base d) (expand base ds) refl refl h
      (λ rs g. expand-ExpandsAll base ds rs g)
  where
    joined :
        (x : Result ExecRequest) (y : Result (List ExecRequest))
        → expand_device base d ≡ x
        → expand base ds ≡ y
        → (x >>= λ r. y >>= λ rs. ok (r ∷ rs)) ≡ ok es
        → ((rs : List ExecRequest) → expand base ds ≡ ok rs → ExpandsAll base ds rs)
        → ExpandsAll base (d ∷ ds) es
    joined (raise e) y f g k ih = cc
    joined (ok r) (raise e) f g k ih = cc
    joined (ok r) (ok rs) f g k ih =
        let p : r ∷ rs ≡ es = cc in
        subst (ExpandsAll base (d ∷ ds)) p (one_more (expand_device-Expanded base d r f) (ih rs g))
