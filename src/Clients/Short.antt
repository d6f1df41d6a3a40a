-- ===== src/Clients/Short.antt =====
-- The clients that run beside the first: app-cliente-2.c to -4.c of exercise 1, which are one text,
-- and those of exercises 2 and 3, which differ in their keys and texts.
use trabajos_sistemas_distri.Base.{[], ◌∷◌, codes, ℤ, pos}
use Prim.Native.String.{String}
use trabajos_sistemas_distri.Claves.Floats.{Floats}
use trabajos_sistemas_distri.Claves.Tuples.{Tuple}
use trabajos_sistemas_distri.Clients.Program.{exist, Program, pure, ◌>>=◌, ◌>>◌, ask, say}
use trabajos_sistemas_distri.Clients.Checks.{
  with_number, double, tries_set, tries_modify, tries_delete, tries_get,
}
use trabajos_sistemas_distri.Clients.Values.{coord}
use trabajos_sistemas_distri.Clients.Tester.{three_ways}

module _ (fl : Floats) where
  open fl use {Float}

  abbrev pub v_client : Tuple Float
  v_client = record {
    key = pos 2;
    value1 = codes "distribuidos";
    n_value2 = pos 3;
    v_value2 = double fl "3.1" ∷ double fl "6.2" ∷ double fl "9.3" ∷ [];
    value3 = coord (pos 20) (pos 10);
  }

  -- `main` of the second to the fourth client of exercise 1
  unfoldable pub sets_and_deletes : Program Float ℤ
  unfolding tries_set tries_delete
  sets_and_deletes = do
    say (codes "\n** Prueba Cliente 2: set_value **\n")
    tries_set fl v_client (with_number "Clave " (pos 2) " insertada correctamente.\n")
        (with_number "Error al insertar la clave " (pos 2) ".\n")
    say (codes "\n** Prueba Cliente 2: delete_key **\n")
    tries_delete fl (pos 2) (with_number "Clave " (pos 2) " eliminada correctamente.\n")
        (with_number "Error al eliminar la clave " (pos 2) ".\n")
    pure (pos 0)

  -- The tuple that a client sets, and the one that it puts in its place, with their texts
  abbrev pub given : ℤ → String → Tuple Float
  given key name = record {
    key = key;
    value1 = codes name;
    n_value2 = pos 3;
    v_value2 = double fl "1.1" ∷ double fl "2.2" ∷ double fl "3.3" ∷ [];
    value3 = coord (pos 5) (pos 10);
  }

  abbrev pub changed : ℤ → String → Tuple Float
  changed key name = record {
    key = key;
    value1 = codes name;
    n_value2 = pos 3;
    v_value2 = double fl "10.10" ∷ double fl "11.11" ∷ double fl "12.12" ∷ [];
    value3 = coord (pos 35) (pos 40);
  }

  -- What the three have in common: the texts about the key before it is set are their own.
  abbrev sets_and_modifies : ℤ → String → String → String → String → Program Float ℤ
  sets_and_modifies key v1 v1_mod if_absent if_there = do
    say (codes "\n** Prueba: exist() antes de set_value **\n")
    exists ← ask (exist key)
    three_ways fl exists (with_number "La clave " key if_absent)
        (with_number "Error: la clave " key if_there)
        (with_number "Error al comprobar la clave " key ".\n")
    say (codes "\n** Prueba: set_value() **\n")
    tries_set fl (given key v1) (with_number "Clave " key " insertada correctamente.\n")
        (with_number "Error al insertar la clave " key ".\n")
    say (codes "\n** Prueba: get_value() **\n")
    tries_get fl key (with_number "Clave " key " recuperada después de modificar.\n")
        (with_number "Error al recuperar la clave " key ".\n")
    say (codes "\n** Prueba: modify_value() **\n")
    tries_modify fl (changed key v1_mod) (with_number "Clave " key " modificada correctamente.\n")
        (with_number "Error al modificar la clave " key ".\n")
    say (codes "\n** Prueba: get_value() después de modify_value **\n")
    tries_get fl key (with_number "Clave " key " recuperada después de modificar.\n")
        (with_number "Error al recuperar la clave " key " después de modificar.\n")
    pure (pos 0)

  -- `main` of app-cliente-2.c, app-cliente-3.c and app-cliente-4.c
  unfoldable pub app_cliente_2 : Program Float ℤ
  unfolding three_ways tries_set tries_get tries_modify
  app_cliente_2 =
      sets_and_modifies (pos 100) "cliente2" "modificado_cliente2" " no existe (correcto).\n"
        " existe antes de ser insertada.\n"

  unfoldable pub app_cliente_3 : Program Float ℤ
  unfolding three_ways tries_set tries_get tries_modify
  app_cliente_3 =
      sets_and_modifies (pos 100) "cliente3" "modificado_cliente3" " no existe (error).\n"
        " existe antes de ser insertada(correcto).\n"

  unfoldable pub app_cliente_4 : Program Float ℤ
  unfolding three_ways tries_set tries_get tries_modify
  app_cliente_4 =
      sets_and_modifies (pos 200) "cliente4" "modificado_cliente4" " no existe (correcto).\n"
        " existe antes de ser insertada.\n"
