-- ===== src/Profiler/Stored.antt =====
-- What `_update_configmap` does to the ConfigMaps of a cluster.
use rbg_planner.Prelude.{String, Option, none, some, ◌≡◌, ap, ◌∙◌, Option-cases, inl, inr}
use rbg_planner.Python.{Error, ok, err, api_exception, Method, ◌>>◌, >>=-ok, >>=-err}
use rbg_planner.Kubeconfig.{recover, connect}
use rbg_planner.Profiler.Store.{
  ConfigMap, ConfigApi, body, or_create, write_config_map, update_configmap,
}

module _ {W : Type 0} (m : Method W (Unit {0})) (handler : Error → Method W (Unit {0})) where
  recover-ok : {w w' : W} → m w ≡ (ok tt, w') → recover m handler w ≡ (ok tt, w')
  recover-ok {w} e = ap (λ x. recover (λ _. x) handler w) e

  recover-err : {w w' : W} {e : Error} → m w ≡ (err e, w') → recover m handler w ≡ handler e w'
  recover-err {w} e = ap (λ x. recover (λ _. x) handler w) e

module _ {W : Type 0} (api : ConfigApi W) (find : String → String → W → Option ConfigMap) where
  -- The object of a name is a new one, and every other object is what it was.
  abbrev pub Put : String → String → ConfigMap → W → W → Type 0
  Put name ns cm w w' =
      (find name ns w' ≡ some cm)
      × ((name' ns' : String)
          → ((name' ≡ name) × (ns' ≡ ns) → ⊥)
          → find name' ns' w' ≡ find name' ns' w)

  -- What the API documents of one client's calls: a read of a missing object is answered with 404
  -- and a read of a present one is answered; a replacement needs a present object and a creation a
  -- missing one, and then the object is the body that was sent.
  pub record IsStore : Type 0 where
    pub read_missing :
        (name ns : String) (w : W)
        → find name ns w ≡ none
        → api.read_config_map name ns w ≡ (err (api_exception 404), w)
    pub read_present :
        (name ns : String) (w : W) {old : ConfigMap}
        → find name ns w ≡ some old
        → api.read_config_map name ns w ≡ (ok tt, w)
    pub replaced :
        (cm : ConfigMap) (w : W) {old : ConfigMap}
        → find cm.name cm.namespace w ≡ some old
        → (w' : W) × (api.replace_config_map cm.name cm.namespace cm w ≡ (ok tt, w'))
          × Put cm.name cm.namespace cm w w'
    pub created :
        (cm : ConfigMap) (w : W)
        → find cm.name cm.namespace w ≡ none
        → (w' : W) × (api.create_config_map cm.namespace cm w ≡ (ok tt, w'))
          × Put cm.name cm.namespace cm w w'

  module _ (laws : IsStore) where
    open laws use {read_missing, read_present, replaced, created}

    write_config_map-Put :
        (cm : ConfigMap) (w : W)
        → (w' : W) × (write_config_map api cm w ≡ (ok tt, w')) × Put cm.name cm.namespace cm w w'
    unfolding write_config_map
    write_config_map-Put cm w =
        let read = api.read_config_map cm.name cm.namespace in
        let replace = api.replace_config_map cm.name cm.namespace cm in
        let create = or_create (api.create_config_map cm.namespace cm) in
        elim (Option-cases (find cm.name cm.namespace w)) [
          | inl missing ↦
              let (w', done, put) = created cm w missing in
              (
                w',
                recover-err (read >> replace) create
                      (>>=-err read (λ _. replace) w (read_missing cm.name cm.namespace w missing))
                    ∙ done,
                put,
              )
          | inr (old, present) ↦
              let (w', done, put) = replaced cm w present in
              (
                w',
                recover-ok (read >> replace) create (
                    >>=-ok read (λ _. replace) w (read_present cm.name cm.namespace w present)
                    ∙ done),
                put,
              )
        ]

    -- On a cluster whose ConfigMaps behave as documented, and to which the client connects,
    -- `_update_configmap` returns, whether the ConfigMap was there or not; afterwards the ConfigMap
    -- holds the two new texts, and every other ConfigMap is what it was.
    pub update_configmap-Put :
        (name ns prefill_json decode_json : String) (w : W)
        → connect api.kubeconfig w ≡ (ok tt, w)
        → (w' : W) × (update_configmap api name ns prefill_json decode_json w ≡ (ok tt, w'))
          × Put name ns (body name ns prefill_json decode_json) w w'
    unfolding update_configmap
    update_configmap-Put name ns prefill_json decode_json w connected =
        let (w', done, put) = write_config_map-Put (body name ns prefill_json decode_json) w in
        (w', >>=-ok (connect api.kubeconfig) (λ _. write_config_map api _) w connected ∙ done, put)
