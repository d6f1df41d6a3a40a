-- ===== src/Clients/Tester.antt =====
-- ejercicio_evaluable_1/app-cliente.c and app-cliente-1.c of exercises 2 and 3, which differ in how
-- they tell what `exist` returns and in one vector.
use trabajos_sistemas_distri.Base.{List, if◌then◌else◌, Bytes, codes, ℤ, pos, int_eq}
use trabajos_sistemas_distri.Claves.Floats.{Floats}
use trabajos_sistemas_distri.Clients.Program.{destroy, exist, Program, pure, ◌>>=◌, ◌>>◌, ask, say}
use trabajos_sistemas_distri.Clients.Values.{
  set_0, set_1, set_2, set_3, set_4, set_5, mod_0, mod_1, mod_2, five, six,
}
use trabajos_sistemas_distri.Clients.Checks.{
  with_number, report, tries_set, tries_modify, tries_delete, tries_get,
}

module _ (fl : Floats) where
  open fl use {Float}

  -- How a client tells the result of `exist`: the texts for 0, for 1 and for any other.
  abbrev Telling : Type 0
  Telling = ℤ → Bytes → Bytes → Bytes → Program Float Unit

  -- `if (exists == 0) … else …`
  unfoldable pub two_ways : Telling
  two_ways exists absent there unknown = if int_eq exists (pos 0) then say absent else say there

  -- `if (exists == 0) … else if (exists == 1) … else …`
  unfoldable pub three_ways : Telling
  three_ways exists absent there unknown =
      if int_eq exists (pos 0)
      then say absent
      else if int_eq exists (pos 1)
      then say there
      else say unknown

  module _ (tells : Telling) where
    unfoldable pub begins : Program Float Unit
    begins = do
      say (codes "\n** Prueba: destroy() **\n")
      code ← ask destroy
      report fl code (codes "Servicio inicializado correctamente.\n")
          (codes "Error al destruir las tuplas anteriores.\n")
      say (codes "\n** Prueba: exist(key) antes de set_value **\n")
      exists ← ask (exist (pos 1))
      tells exists (with_number "La clave " (pos 1) " no existe (correcto).\n")
          (with_number "Error: la clave " (pos 1) " existe antes de ser insertada.\n")
          (with_number "Error al comprobar la clave " (pos 1) ".\n")

    -- The blocks that ask whether a key exists that should, and one that should not
    abbrev expects_there : ℤ → Program Float Unit
    expects_there key = do
      exists ← ask (exist key)
      tells exists (with_number "La clave " key " no existe (Error).\n")
          (with_number "La clave " key " existe (Correcto).\n")
          (with_number "Error al comprobar la clave " key ".\n")

    abbrev expects_absent : ℤ → Program Float Unit
    expects_absent key = do
      exists ← ask (exist key)
      tells exists (with_number "La clave " key " no existe (Correcto).\n")
          (with_number "La clave " key " existe (Error).\n")
          (with_number "Error al comprobar la clave " key ".\n")

    unfoldable pub asks : Program Float Unit
    asks = do
      say (codes "\n** Pruebas: exist(key) **\n")
      expects_there (pos 1)
      expects_absent (pos 5)
      expects_there (pos 2)
      expects_absent (pos 10)
      expects_there (pos 3)

  unfoldable pub inserts : List Float → Program Float Unit
  unfolding tries_set
  inserts v2_set1 = do
    say (codes "\n** Prueba: set_value con diferentes claves **\n")
    tries_set fl (set_0 fl) (with_number "Clave " (pos 1) " insertada correctamente.\n")
        (with_number "Error al insertar la clave " (pos 1) ".\n")
    tries_set fl (set_0 fl)
        (with_number "Clave " (pos 1) " insertada correctamente (Error, clave duplicada).\n")
        (with_number "Error al insertar la clave " (pos 1) " (Correcto, clave duplicada).\n")
    tries_set fl (set_1 fl v2_set1) (with_number "Clave " (pos 2) " insertada correctamente.\n")
        (with_number "Error al insertar la clave " (pos 2) ".\n")
    tries_set fl (set_2 fl) (with_number "Clave " (pos 3) " insertada correctamente.\n")
        (with_number "Error al insertar la clave " (pos 3) ".\n")
    tries_set fl (set_3 fl) (with_number "Clave " (pos 4) " insertada correctamente.\n")
        (with_number "Error al insertar la clave " (pos 4) ".\n")
    tries_set fl (set_4 fl (pos 5))
        (with_number "Clave " (pos 5)
          " insertada correctamente (Error, N_value2 fuera de rango).\n")
        (with_number "Error al insertar la clave " (pos 5)
          " (Correcto, N_value2 fuera de rango).\n")
    tries_set fl (set_5 fl (pos 6))
        (with_number "Clave " (pos 6) " insertada correctamente (Error, value1 fuera de rango).\n")
        (with_number "Error al insertar la clave " (pos 6) " (Correcto, value1 fuera de rango).\n")

  unfoldable pub gets : Program Float Unit
  unfolding tries_get
  gets = do
    say (codes "\n** Prueba: get_value(key) **\n")
    tries_get fl (pos 1) (with_number "Clave " (pos 1) " recuperada correctamente.\n")
        (with_number "Error al recuperar la clave " (pos 1) ".\n")
    tries_get fl (pos 10)
        (codes "Clave 10 recuperada correctamente (Error, la clave  no existe).\n")
        (codes "Error al recuperar la clave (Correcto, la clave no existe).\n")
    tries_get fl (pos 2) (with_number "Clave " (pos 2) " recuperada correctamente.\n")
        (with_number "Error al recuperar la clave " (pos 2) ".\n")

  unfoldable pub modifies : Program Float Unit
  unfolding tries_modify
  modifies = do
    say (codes "\n** Prueba: modify_value con diferentes claves **\n")
    tries_modify fl (mod_0 fl) (with_number "Clave " (pos 1) " modificada correctamente.\n")
        (with_number "Error al modificar la clave " (pos 1) ".\n")
    tries_modify fl (mod_1 fl)
        (codes "Clave 20 modificada correctamente (Error, la clave no exsite).\n")
        (codes "No se ha podido modificar la clave 20 (Correcto, la clave no exsite) .\n")
    tries_modify fl (mod_2 fl) (with_number "Clave " (pos 3) " modificada correctamente.\n")
        (with_number "Error al modificar la clave " (pos 3) ".\n")
    tries_modify fl (set_4 fl (pos 1))
        (with_number "Clave " (pos 1)
          " modificada correctamente (Error, N_value2 fuera de rango).\n")
        (with_number "Error al modificar la clave " (pos 1)
          " (Correcto, N_value2 fuera de rango).\n")
    tries_modify fl (set_5 fl (pos 3))
        (with_number "Clave " (pos 3) " modificada correctamente (Error, value1 fuera de rango).\n")
        (with_number "Error al modificar la clave " (pos 3) " (Correcto, value1 fuera de rango).\n")

  unfoldable pub gets_modified : Program Float Unit
  unfolding tries_get
  gets_modified = do
    say (codes "\n** Prueba: get_value(key) después de modificar **\n")
    tries_get fl (pos 1) (with_number "Clave " (pos 1) " recuperada después de modificar.\n")
        (with_number "Error al recuperar la clave " (pos 1) " después de modificar.\n")
    tries_get fl (pos 3) (with_number "Clave " (pos 3) " recuperada después de modificar.\n")
        (with_number "Error al recuperar la clave " (pos 3) " después de modificar.\n")

  unfoldable pub deletes : Program Float Unit
  unfolding tries_delete
  deletes = do
    say (codes "\n** Prueba: delete_key(key) **\n")
    tries_delete fl (pos 1) (with_number "Clave " (pos 1) " eliminada correctamente.\n")
        (with_number "Error al eliminar la clave " (pos 1) ".\n")
    tries_delete fl (pos 20)
        (codes "Clave 20 eliminada correctamente (Error, la clave no existe).\n")
        (codes "Error al eliminar la clave 20 (Correcto, la clave no existe).\n")
    say (codes "\n** Prueba: exist(key) después de delete_key **\n")
    exists ← ask (exist (pos 1))
    report fl exists (with_number "La clave " (pos 1) " ya no existe (correcto).\n")
        (with_number "Error: la clave " (pos 1) " aún existe después de ser eliminada.\n")

  abbrev tester : Telling → List Float → Program Float ℤ
  tester tells v2_set1 = do
    begins tells
    inserts v2_set1
    asks tells
    gets
    modifies
    gets_modified
    deletes
    pure (pos 0)

  -- `main` of app-cliente.c
  unfoldable pub app_cliente : Program Float ℤ
  unfolding begins inserts asks gets modifies gets_modified deletes two_ways
  app_cliente = tester two_ways (five fl)

  -- `main` of app-cliente-1.c
  unfoldable pub app_cliente_1 : Program Float ℤ
  unfolding begins inserts asks gets modifies gets_modified deletes three_ways
  app_cliente_1 = tester three_ways (six fl)
