-- ===== src/Lib.antt =====
-- A model of the C programs of the repository, and what it shows of them.
--
-- Base, Stdio: strings, integers of 32 bits, and the C library as the programs use it. Stdio.Run is
-- the outcome of code that may write past an array (`fault`). A loop that reads a file takes fuel,
-- one unit a round: one more than the file has characters. In the final project this is enough, as
-- every round takes at least one of them (Stdio.Scan.Ends, Logic.Ends, Server.Ends); the loops of
-- claves.c need a file that they can read (Claves.Tuples.Hangs has what they do elsewhere).
-- Stdio.Disk is the files by name, with what the system allows. The conversions of `fscanf` are in
-- Stdio.Decimal and Stdio.Scan.
--
-- Logic: Práctica_Final/logic/logic.c. Users and Contents hold its functions under their names in
-- this language's spelling (`registerUser` is `register_user`); the loops are functions of their
-- own. Users.Registry says when the disk stores a list of users, and Refines what each function
-- does to it.
--
-- Sockets: Práctica_Final/sockets/sockets.c, over the list of what the kernel answers to each call.
--
-- Server: Práctica_Final/server.c. `tratar_peticion` reads a command and its fields and calls
-- Logic; Requests has the commands on users and contents, Listing those that send lists. Replies
-- treats a whole request, from its first byte to the close of the connection. Service is what the
-- server offers, a list of users and what each has published, without files; Service.Refines joins
-- it to `tratar_peticion` for any sequence of requests. Server.Main is main: how it begins, and its
-- loop with the threads that it starts, as a step relation; its children show an invariant and that
-- main goes on. Threads has what this and Mq.Main need of lists of threads.
--
-- Claves: the store of tuples of ejercicio_evaluable_1/claves/claves.c, on one text file. `double`
-- is a parameter, of which Floats states the behaviour of `%lf`.
--
-- Sock: ejercicio_evaluable_2/servidor-sock.c and proxy-sock.c, both sides as functions of the
-- bytes that come; Sock.Keys, Remote, Reply and Get put one at the end of the other. Mq: the same
-- for proxy-mq.c and servidor-mq.c of ejercicio_evaluable_1, over messages; Mq.Main is main of
-- servidor-mq.c with its threads. Rpc: ejercicio_evaluable_3/servidor-rpc.c, and in Rpc.Proxy
-- proxy-rpc.c over remote calls that are parameters; Rpc.Remote puts one behind the other.
--
-- Clients: the test clients app-cliente*.c of the exercises. A client is a program that prints and
-- calls the operations of claves.h (Clients.Program); Clients.Contract is what it relies on, the
-- operations on a list of tuples, and what it means that an implementation offers them.
-- Clients.Behind puts each proxy with its server behind a client, which Clients.Queues,
-- Clients.Sockets and Clients.Rpc show to be such implementations; what one asks of a tuple beyond
-- the others, as that its texts are lines, is an argument of the contract. Checks, Values, Tester and
-- Short are the clients, those of exercise 3 being the texts of exercise 2; Passes, Restores,
-- Beside and Third run them over any implementation.
--
-- Texts are lists of codes without the closing NUL. Local arrays of the final project hold nothing
-- defined before they are read into, and the use of one is a `fault`; those of the exercises hold
-- something that is an argument. In the theorems on requests a request has the disk to itself; the
-- servers of the final project and of exercises 1 and 2 take no lock on their files, and
-- Logic.Users.Races shows what follows for two registrations at a time. The steps of Server.Main
-- and Mq.Main are calls of pthread and accesses to what is shared; malloc gives a cell that is
-- free. main of servidor-sock.c has the loop of server.c, and only its beginning is modelled again.
-- Not modelled: the handler of SIGINT, which ends the process, the log on the terminal, the clients
-- in Python, and the code that rpcgen makes.
pub mod Base
pub mod Stdio
pub mod Threads
pub mod Logic
pub mod Sockets
pub mod Server
pub mod Claves
pub mod Clients
pub mod Sock
pub mod Mq
pub mod Rpc
pub mod Tests
